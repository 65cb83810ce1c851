-- ===== src/Request/Writes.antt =====
-- What the request helpers write. `Buffering` states what the Kii SDK documents of
-- kii_api_call_append_body: the text joins the request body, or it does not fit and the call fails.
use thing_if_thing_sdk.Prelude.{
  Bool, true, false, Bytes, length, ℕ, ◌+◌, ◌≤◌, ◌<◌, ℤ, pos, minus_one, nonzero, List, [], ◌∷◌,
  ◌++◌, if◌then◌else◌, ◌≡◌, refl, arith, length-append, append_assoc, leb, leb→le, leb_false→lt,
  Bool-cases, inl, inr, append-nil, ◌∙◌, ap, sym,
}
use mathlib.Core.Path.{subst}
use thing_if_thing_sdk.Flow.{done, Run, any_fails, pure, ◌>>=◌, bind_done}
use thing_if_thing_sdk.Kii.{Kii, Sdk}
use thing_if_thing_sdk.Context.{Context}
use thing_if_thing_sdk.Request.{append_body}

-- `body` is the request body so far and `room` the bytes that the buffer still takes. A text that
-- fits is appended; one that does not makes the call fail and leaves no more room than before.
pub record Buffering {I W : Type 0} (sdk : Sdk I W) : Type 0 where
  pub body : I → Bytes
  pub room : I → ℕ
  pub grow : Bytes → I → I
  pub spill : Bytes → I → I
  pub failure : ℤ
  pub failed : nonzero failure ≡ true
  pub fits :
      (s : Bytes) (k : Kii I W) (w : W)
      → length s ≤ room k.internals
      → sdk.kii_api_call_append_body s (length s) k w
        ≡ (pos 0, record k { internals = grow s k.internals }, w)
  pub overflows :
      (s : Bytes) (k : Kii I W) (w : W)
      → room k.internals < length s
      → sdk.kii_api_call_append_body s (length s) k w
        ≡ (failure, record k { internals = spill s k.internals }, w)
  pub body-grow : (s : Bytes) (i : I) → length s ≤ room i → body (grow s i) ≡ body i ++ s
  pub room-grow : (s : Bytes) (i : I) → length s ≤ room i → room (grow s i) + length s ≡ room i
  pub room-spill : (s : Bytes) (i : I) → room (spill s i) ≤ room i

-- The context with other SDK internals: what a call that only writes to the request leaves.
abbrev pub at : {I W : Type 0} → Context I W → I → Context I W
at c i = record c { kii = record c.kii { internals = i } }

module _ {I W : Type 0} (sdk : Sdk I W) (buffering : Buffering sdk) where
  open buffering use {body, room, grow, spill, failure}

  -- From `i` the text `s` was appended, which left `j`.
  pub record Appended (s : Bytes) (i j : I) : Type 0 where
    pub text : body j ≡ body i ++ s
    pub left : room j + length s ≡ room i

  -- The call returns 0 and appends `s` where `s` fits; else it returns another code. Only the
  -- request changes.
  pub record Writes (s : Bytes) (m : Run (Context I W) ℤ) : Type 0 where
    pub when_fits :
        (c : Context I W)
        → length s ≤ room c.kii.internals
        → (j : I) × (m c ≡ done (pos 0) (at c j)) × Appended s c.kii.internals j
    pub when_short :
        (c : Context I W)
        → room c.kii.internals < length s
        → (r : ℤ) × (j : I) × (m c ≡ done r (at c j)) × (nonzero r ≡ true)

  -- The same of a condition over several calls, which holds if one of them fails.
  pub record Tests (s : Bytes) (m : Run (Context I W) Bool) : Type 0 where
    pub when_fits :
        (c : Context I W)
        → length s ≤ room c.kii.internals
        → (j : I) × (m c ≡ done false (at c j)) × Appended s c.kii.internals j
    pub when_short :
        (c : Context I W) → room c.kii.internals < length s → (j : I) × (m c ≡ done true (at c j))

  pub append_body-Writes : (s : Bytes) → Writes s (append_body sdk s)
  unfolding append_body
  append_body-Writes s = record {
    when_fits = λ c h. (
      grow s c.kii.internals,
      ground (arith, buffering.fits s c.kii c.world h),
      record {
        text = buffering.body-grow s c.kii.internals h;
        left = buffering.room-grow s c.kii.internals h;
      },
    );
    when_short = λ c h. (
      failure,
      spill s c.kii.internals,
      ground (arith, buffering.overflows s c.kii c.world h),
      buffering.failed,
    );
  }

  pub Writes-text : {s t : Bytes} {m : Run (Context I W) ℤ} → s ≡ t → Writes s m → Writes t m
  Writes-text {m} e h = subst (λ u. Writes u m) e h

  pub Tests-text : {s t : Bytes} {m : Run (Context I W) Bool} → s ≡ t → Tests s m → Tests t m
  Tests-text {m} e h = subst (λ u. Tests u m) e h

  pub Appended-both :
      (s t : Bytes) {i j k : I} → Appended s i j → Appended t j k → Appended (s ++ t) i k
  Appended-both s t {i} {j} {k} a b = record {
    text = b.text ∙ ap (λ u. u ++ t) a.text ∙ append_assoc (body i) s t;
    left = omega (arith, a.left, b.left, length-append s t);
  }

  pub Appended-none : (i : I) → Appended [] i i
  Appended-none i = record { text = sym (append-nil (body i)); left = omega arith }

  pub Tests-nil : Tests [] (any_fails [])
  Tests-nil = record {
    when_fits = λ c h. (c.kii.internals, refl, Appended-none c.kii.internals);
    when_short = λ c h. absurd (omega arith);
  }

  pub Writes-zero : Writes [] (λ c. done (pos 0) c)
  Writes-zero = record {
    when_fits = λ c h. (c.kii.internals, refl, Appended-none c.kii.internals);
    when_short = λ c h. absurd (omega arith);
  }

  module _ (s t : Bytes) (c : Context I W) where
    pub fits_first : length (s ++ t) ≤ room c.kii.internals → length s ≤ room c.kii.internals
    fits_first h = omega (arith, length-append s t)

    pub fits_second :
        {j : I}
        → length (s ++ t) ≤ room c.kii.internals
        → Appended s c.kii.internals j
        → length t ≤ room j
    fits_second h a = omega (arith, a.left, length-append s t)

    short_second :
        {j : I}
        → room c.kii.internals < length (s ++ t)
        → Appended s c.kii.internals j
        → room j < length t
    short_second h a = omega (arith, a.left, length-append s t)

  module _ (s t : Bytes) (m : Run (Context I W) ℤ) (ms : List (Run (Context I W) ℤ)) where
    Tests-cons : Writes s m → Tests t (any_fails ms) → Tests (s ++ t) (any_fails (m ∷ ms))
    Tests-cons w v = record {
      when_fits = λ c h.
          let (j, e, a) = w.when_fits c (fits_first s t c h) in
          let (k, e', b) = v.when_fits (at c j) (fits_second s t c h a) in
          (k, bind_done m _ e ∙ e', Appended-both s t a b);
      when_short = λ c h. elim (Bool-cases (leb (length s) (room c.kii.internals))) [
        | inl fit ↦
            let (j, e, a) = w.when_fits c (leb→le _ _ fit) in
            let (k, e') = v.when_short (at c j) (short_second s t c h a) in
            (k, bind_done m _ e ∙ e')
        | inr short ↦
            let (r, j, e, n) = w.when_short c (leb_false→lt _ _ short) in
            (j, bind_done m _ e ∙ (rw n))
      ];
    }

  -- A row of calls with the text that they write together.
  pub data WriteAll : Bytes → List (Run (Context I W) ℤ) → Type 0 where
    nothing : WriteAll [] []
    first :
        {s t : Bytes} {m : Run (Context I W) ℤ} {ms : List (Run (Context I W) ℤ)}
        → Writes s m
        → WriteAll t ms
        → WriteAll (s ++ t) (m ∷ ms)

  pub any_fails-Tests :
      {s : Bytes} {ms : List (Run (Context I W) ℤ)} → WriteAll s ms → Tests s (any_fails ms)
  any_fails-Tests nothing = Tests-nil
  any_fails-Tests (first {s} {t} {m} {ms} w all) = Tests-cons s t m ms w (any_fails-Tests all)

  module _ (s t : Bytes) (m : Run (Context I W) Bool) (n : Run (Context I W) ℤ) where
    pub Writes-guarded :
        Tests s m → Writes t n → Writes (s ++ t) (m >>= λ b. if b then pure minus_one else n)
    Writes-guarded v w = record {
      when_fits = λ c h.
          let (j, e, a) = v.when_fits c (fits_first s t c h) in
          let (k, e', b) = w.when_fits (at c j) (fits_second s t c h a) in
          (k, bind_done m _ e ∙ e', Appended-both s t a b);
      when_short = λ c h. elim (Bool-cases (leb (length s) (room c.kii.internals))) [
        | inl fit ↦
            let (j, e, a) = v.when_fits c (leb→le _ _ fit) in
            let (r, k, e', f) = w.when_short (at c j) (short_second s t c h a) in
            (r, k, bind_done m _ e ∙ e', f)
        | inr short ↦
            let (j, e) = v.when_short c (leb_false→lt _ _ short) in
            (minus_one, j, bind_done m _ e, refl)
      ];
    }
