-- ===== src/Vm/Opcode.antt =====
-- internal/vm/opcodes.go: the instructions, their bytes and their gas costs.
use tylium.Prelude.{ℕ, Option, none, some, ◌==◌, if◌then◌else◌}

pub data Opcode : Type 0 where
  halt push pop dup swap add sub mul div eq lt not jump jumpi sload sstore : Opcode

-- The keys of the `GasCost` map: a byte that is none of them has no cost, and is refused.
unfoldable pub opcode_of : ℕ → Option Opcode
opcode_of b =
    if b == 0x00
    then some halt
    else if b == 0x01
    then some push
    else if b == 0x02
    then some pop
    else if b == 0x03
    then some dup
    else if b == 0x04
    then some swap
    else if b == 0x10
    then some add
    else if b == 0x11
    then some sub
    else if b == 0x12
    then some mul
    else if b == 0x13
    then some div
    else if b == 0x20
    then some eq
    else if b == 0x21
    then some lt
    else if b == 0x22
    then some not
    else if b == 0x30
    then some jump
    else if b == 0x31
    then some jumpi
    else if b == 0x40
    then some sload
    else if b == 0x41
    then some sstore
    else none

unfoldable pub gas_cost : Opcode → ℕ
gas_cost halt = 0
gas_cost push = 2
gas_cost pop = 2
gas_cost dup = 2
gas_cost swap = 2
gas_cost add = 3
gas_cost sub = 3
gas_cost mul = 5
gas_cost div = 5
gas_cost eq = 3
gas_cost lt = 3
gas_cost not = 3
gas_cost jump = 8
gas_cost jumpi = 10
gas_cost sload = 50
gas_cost sstore = 800
