-- ===== src/Command/Memory/Access.antt =====
-- Reads and writes of the message at a byte with known neighbours, and the texts between NULs.
use thing_if_thing_sdk.Prelude.{
  Bytes, length, ℕ, [], ◌∷◌, ◌++◌, some, ◌≡◌, ◌≢◌, refl, arith, get_elem?-middle, set-middle,
  drop-length-append, length-middle, lt→ltb,
}
use thing_if_thing_sdk.Flow.{done}
use thing_if_thing_sdk.Context.{Context}
use thing_if_thing_sdk.Command.Memory.{byte_at, poke, text_at, until_nul}

-- A text as C reads it has no NUL inside.
abbrev pub NoNul : Bytes → Type 0
NoNul [] = Unit
NoNul (b ∷ bs) = (b ≢ 0) × NoNul bs

pub until_nul-append : (s rest : Bytes) → NoNul s → until_nul (s ++ 0 ∷ rest) ≡ some s
until_nul-append [] rest h = refl
until_nul-append (b ∷ s) rest h = ground (arith, until_nul-append s rest h.1)

module _ {I W : Type 0} (c : Context I W) where
  -- The byte behind `before`.
  module _ (before : Bytes) (b : ℕ) (after : Bytes) (p : ℕ) where
    pub byte_at_lem : c.message ≡ before ++ b ∷ after → p ≡ length before → byte_at p c ≡ done b c
    byte_at_lem e f = rw (e, f) (rw (get_elem?-middle before b after))

    pub poke_lem :
        (v : ℕ)
        → c.message ≡ before ++ b ∷ after
        → p ≡ length before
        → poke p v c ≡ done tt (record c { message = before ++ v ∷ after })
    poke_lem v e f =
        rw (e, f) (rw (lt→ltb _ _ (length-middle before b after), set-middle before b after v))

  -- The C string behind `before`.
  pub text_at_lem :
      (before s after : Bytes) (p : ℕ)
      → c.message ≡ before ++ (s ++ 0 ∷ after)
      → p ≡ length before
      → NoNul s
      → text_at p c ≡ done s c
  text_at_lem before s after p e f h =
      rw (e, f) (rw (drop-length-append before (s ++ 0 ∷ after), until_nul-append s after h))
