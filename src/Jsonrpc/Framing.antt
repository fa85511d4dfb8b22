-- ===== src/Jsonrpc/Framing.antt =====
-- `_read_stdout` of src/vibe/codex/jsonrpc.py: the bytes of the process arrive in chunks, and the lines
-- among them are routed one by one, until one of them raises. A byte is a number.
pub mod Chunks
use local_skill_orchestrator.Prelude.{
  ℕ, zero, suc, Bool, true, false, not, ◌&&◌, ◌||◌, Option, none, some, List, [], ◌∷◌, ◌++◌, any,
  length, leb, nat_eq, if◌then◌else◌,
}
use local_skill_orchestrator.Prelude.Results.{Result, ok, err}

abbrev pub newline : ℕ
newline = 10

-- bool(line.strip())
abbrev pub is_filled : List ℕ → Bool
is_filled = any (λ b. not (leb 9 b && leb b 13 || nat_eq b 32))

abbrev with_first : ℕ → Option (List ℕ × List ℕ) → Option (List ℕ × List ℕ)
with_first b none = none
with_first b (some (line, rest)) = some (b ∷ line, rest)

-- buffer.partition(b"\n"), where there is a newline
unfoldable pub partition : List ℕ → Option (List ℕ × List ℕ)
partition [] = none
partition (b ∷ bs) = if nat_eq b newline then some ([], bs) else with_first b (partition bs)

module _ {S E : Type 0} where
  abbrev pub ended : Result E S → S → Result E (Unit {0}) × S
  ended (ok t) s = (ok tt, t)
  ended (err e) s = (err e, s)

  abbrev pub then_read :
      (List ℕ → S → Result E (Unit {0}) × S) → Result E (List ℕ) × S → Result E (Unit {0}) × S
  then_read next (ok rest, s) = next rest s
  then_read next (err e, s) = (err e, s)

module _ {S E : Type 0} (route : List ℕ → S → Result E S) where
  -- What a routed line leaves: an exception leaves the state as it was.
  abbrev pub routed : List ℕ → S → Result E S
  routed line s = if is_filled line then route line s else ok s

  abbrev if_routed : (S → Result E (List ℕ) × S) → Result E S → S → Result E (List ℕ) × S
  if_routed next (ok t) s = next t
  if_routed next (err e) s = (err e, s)

  -- One round of the loop, with what follows it.
  abbrev round :
      (List ℕ → S → Result E (List ℕ) × S)
      → Option (List ℕ × List ℕ)
      → List ℕ
      → S
      → Result E (List ℕ) × S
  round next none buffer s = (ok buffer, s)
  round next (some (line, rest)) buffer s = if_routed (next rest) (routed line s) s

  -- `while b"\n" in buffer`: the buffer that is left, and the state. The buffer gets shorter in every
  -- round, so its length is fuel enough.
  unfoldable pub drain : ℕ → List ℕ → S → Result E (List ℕ) × S
  unfolding partition
  drain zero buffer s = (ok buffer, s)
  drain (suc n) buffer s = round (drain n) (partition buffer) buffer s

  -- The chunks up to the end of the stream, where the buffer that is left is the last line.
  unfoldable pub read_stdout : List (List ℕ) → List ℕ → S → Result E (Unit {0}) × S
  unfolding drain
  read_stdout [] buffer s = ended (routed buffer s) s
  read_stdout (chunk ∷ chunks) buffer s =
      then_read (read_stdout chunks) (drain (length (buffer ++ chunk)) (buffer ++ chunk) s)
