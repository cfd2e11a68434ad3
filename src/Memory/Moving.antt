-- ===== src/Memory/Moving.antt =====
-- Copying between the memories of a process and of the system, and the operand of an instruction, of
-- os/memory.c.
use Prim.Native.Nat.{bit_and, bit_or}
use lab.Prelude.{
  ℕ, zero, suc, ◌+◌, ◌-◌, ◌/◌, ◌%◌, ◌^◌, List, none, some, not, ◌==◌, ◌||◌, ltb, if◌then◌else◌,
}
use lab.Run.{Cmd, fault, pure, starved, ◌>>◌}
use lab.Text.Strings.{Bytes, bcopy}
use lab.Memory.Freemap.{page_size}
use lab.Memory.Address.{translate}

-- The direction of a copy: `dir >= 0` is from the system to the user.
pub data Direction : Type 0 where
  to_user to_system : Direction

-- The calls of `bcopy` in `moveBetweenSpaces`: `s` is the system's address, `u` the user's one, which
-- has been translated.
unfoldable pub copy_chunk : Direction → ℕ → ℕ → ℕ → Cmd Bytes (Unit {0})
copy_chunk to_user s u n = bcopy s u n
copy_chunk to_system s u n = bcopy u s n

-- The bytes up to the end of the page, `n` at most.
unfoldable pub chunk : ℕ → ℕ → ℕ
chunk address n = let left = page_size - address % page_size in if ltb n left then n else left

-- The loop of `moveBetweenSpaces`, for a process with the given page table: a round copies what is on
-- one page. Each round copies a byte at least, so `n` rounds are enough.
unfoldable pub move_between : ℕ → List ℕ → ℕ → Direction → ℕ → ℕ → ℕ → ℕ → Cmd Bytes ℕ
move_between zero table npages dir s u n copied = starved
move_between (suc rounds) table npages dir s u n copied =
    if n == 0 then pure copied else elim (translate table npages u) [
      | none ↦ λ m. fault
      | some address ↦ if address == 0 then pure copied else do
        copy_chunk dir s address (chunk address n)
        move_between rounds table npages dir (s + chunk address n) (u + chunk address n)
            (n - chunk address n) (copied + chunk address n)
    ]

-- `MemoryCopySystemToUser`
unfoldable pub copy_to_user : List ℕ → ℕ → ℕ → ℕ → ℕ → Cmd Bytes ℕ
copy_to_user table npages from to n = move_between (n + 1) table npages to_user from to n 0

-- `MemoryCopyUserToSystem`
unfoldable pub copy_to_system : List ℕ → ℕ → ℕ → ℕ → ℕ → Cmd Bytes ℕ
copy_to_system table npages from to n = move_between (n + 1) table npages to_system to from n 0

-- `MemoryGetOperandAddress`, given the saved registers of the process.
unfoldable pub operand_address : (ℕ → ℕ) → ℕ → ℕ
operand_address registers instr =
    let opcode = instr / 2 ^ 26 % 64 in
    let offset = instr % 2 ^ 16 in
    let extended = if bit_and offset 0x8000 == 0 then offset else bit_or offset 0xffff_0000 in
    if ltb opcode 0x20 || ltb 0x2f opcode || not (bit_and (0x3404 / 2 ^ (opcode - 0x20)) 1 == 0)
    then 0xffff_ffff
    else (registers (instr / 2 ^ 21 % 32) + extended) % 2 ^ 32
