-- ===== src/Command/Memory.antt =====
-- The bytes of the pushed message, read and written in place. An access outside them is a fault.
pub mod Access
use thing_if_thing_sdk.Prelude.{
  Bool, Bytes, length, get_elem?, set, take, drop, ℕ, zero, suc, ◌+◌, ◌-◌, ◌%◌, List, [], ◌∷◌,
  Option, none, some, if◌then◌else◌, leb, ltb, ◌==◌,
}
use mathlib.Core.Option
use thing_if_thing_sdk.Flow.{Outcome, done, fault, Run}
use thing_if_thing_sdk.Context.{Context, size_mod}

-- `end - start` in size_t.
abbrev pub distance : ℕ → ℕ → ℕ
distance start end = (end + size_mod - start) % size_mod

-- The text up to the first NUL, as strlen and %s read it; `none` if there is no NUL.
abbrev pub until_nul : Bytes → Option Bytes
until_nul [] = none
until_nul (b ∷ bs) = if b == 0 then some [] else Option.map (λ t. b ∷ t) (until_nul bs)

-- The text of at most `n` bytes that strncat reads.
abbrev pub at_most : ℕ → Bytes → Option Bytes
at_most zero bs = some []
at_most (suc n) [] = none
at_most (suc n) (b ∷ bs) = if b == 0 then some [] else Option.map (λ t. b ∷ t) (at_most n bs)

module _ {I W : Type 0} where
  abbrev pub or_fault : {A : Type 0} → Option A → Run (Context I W) A
  or_fault none c = fault
  or_fault (some a) c = done a c

  abbrev pub byte_at : ℕ → Run (Context I W) ℕ
  byte_at p c = or_fault (get_elem? c.message p) c

  abbrev pub poke : ℕ → ℕ → Run (Context I W) (Unit {0})
  poke p b c =
      if ltb p (length c.message) then done tt (record c { message = set c.message p b }) else fault

  -- The `n` bytes at `p`.
  abbrev pub slice : ℕ → ℕ → Run (Context I W) Bytes
  slice p n c = if leb (p + n) (length c.message) then done (take n (drop p c.message)) c else fault

  -- The C string at `p`.
  abbrev pub text_at : ℕ → Run (Context I W) Bytes
  text_at p c = or_fault (until_nul (drop p c.message)) c

  abbrev pub text_within : ℕ → ℕ → Run (Context I W) Bytes
  text_within p n c = or_fault (at_most n (drop p c.message)) c
