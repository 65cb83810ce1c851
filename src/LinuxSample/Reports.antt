-- ===== src/LinuxSample/Reports.antt =====
-- What the state handler of the sample writes.
use thing_if_thing_sdk.Prelude.{
  Bool, true, false, Bytes, length, ℕ, zero, suc, ◌≤◌, ◌<◌, List, [], ◌∷◌, ◌++◌, ◌≡◌, refl, ◌∙◌, ap,
  arith, length-append, ◌==◌, Bool-cases, inl, inr, leb, leb→le, leb_false→lt,
}
use mathlib.Core.Path.{subst}
use thing_if_thing_sdk.Flow.{Outcome, Run, done, bind_done}
use thing_if_thing_sdk.Kii.{Sdk}
use thing_if_thing_sdk.Context.{Context}
use thing_if_thing_sdk.Request.{append_body, prv_writer}
use thing_if_thing_sdk.Request.Writes.{
  Buffering, Appended, at, Appended-both, Appended-none, fits_first, fits_second,
  append_body-Writes,
}
use thing_if_thing_sdk.Command.Memory.Access.{NoNul}
use thing_if_thing_sdk.LinuxSample.{fgets, unless_false, c_text, write_lines, write_all}

-- One line, and what is left of the file.
pub record Read (bs line rest : Bytes) : Type 0 where
  pub whole : line ++ rest ≡ bs
  pub line_text : NoNul line
  pub rest_text : NoNul rest

fgets-Read : (n : ℕ) (bs : Bytes) → NoNul bs → let (line, rest) = fgets n bs in Read bs line rest
fgets-Read zero bs h = record { whole = refl; line_text = tt; rest_text = h }
fgets-Read (suc n) [] h = record { whole = refl; line_text = tt; rest_text = tt }
fgets-Read (suc n) (b ∷ bs) h =
    let ih = fgets-Read n bs h.1 in
    elim (Bool-cases (b == 10)) [
      | inl newline ↦ rw newline (record { whole = refl; line_text = (h.0, tt); rest_text = h.1 })
      | inr other ↦ rw other (record {
        whole = ap (λ t. b ∷ t) ih.whole;
        line_text = (h.0, ih.line_text);
        rest_text = ih.rest_text;
      })
    ]

fgets-short : (n : ℕ) (bs : Bytes) → length (fgets n bs).1 ≤ length bs
fgets-short zero bs = omega arith
fgets-short (suc n) [] = omega arith
fgets-short (suc n) (b ∷ bs) = ground (arith, fgets-short n bs)

-- A line of a file that has not ended is not empty.
pub fgets-shorter : (n b : ℕ) (bs : Bytes) → length (fgets (suc n) (b ∷ bs)).1 ≤ length bs
fgets-shorter n b bs = elim (Bool-cases (b == 10)) [
  | inl newline ↦ rw newline (omega arith)
  | inr other ↦ rw other (fgets-short n bs)
]

c_text_lem : (bs : Bytes) → NoNul bs → c_text bs ≡ bs
c_text_lem [] h = refl
c_text_lem (b ∷ bs) h = ground (arith, c_text_lem bs h.1)

abbrev pub joined : List Bytes → Bytes
joined [] = []
joined (text ∷ texts) = text ++ joined texts

module _ {I W : Type 0} (sdk : Sdk I W) (buffering : Buffering sdk) where
  -- The writer took the whole text: only the request changes.
  pub record Wrote (text : Bytes) (c : Context I W) (r : Outcome (Context I W) Bool) : Type 0 where
    pub internals : I
    pub ends : r ≡ done true (at c internals)
    pub appended : Appended sdk buffering text c.kii.internals internals

  pub prv_writer-Wrote :
      (text : Bytes) (c : Context I W)
      → length text ≤ buffering.room c.kii.internals
      → Wrote text c (prv_writer sdk text c)
  unfolding prv_writer
  prv_writer-Wrote text c h =
      let (j, e, a) = (append_body-Writes sdk buffering text).when_fits c h in
      record { internals = j; ends = bind_done (append_body sdk text) _ e; appended = a }

  -- The writer refused a part of the text.
  abbrev pub Refused : Context I W → Outcome (Context I W) Bool → Type 0
  Refused c r = (j : I) × (r ≡ done false (at c j))

  prv_writer-Refused :
      (text : Bytes) (c : Context I W)
      → buffering.room c.kii.internals < length text
      → Refused c (prv_writer sdk text c)
  unfolding prv_writer
  prv_writer-Refused text c h =
      let (r, j, e, n) = (append_body-Writes sdk buffering text).when_short c h in
      (j, bind_done (append_body sdk text) _ e ∙ rw n refl)

  -- A part, and what follows it: where they do not fit both, one is refused.
  two-Refused :
      (text texts : Bytes) (m more : Run (Context I W) Bool) (c : Context I W)
      → buffering.room c.kii.internals < length (text ++ texts)
      → (length text ≤ buffering.room c.kii.internals → Wrote text c (m c))
      → (buffering.room c.kii.internals < length text → Refused c (m c))
      → ((j : I) → buffering.room j < length texts → Refused (at c j) (more (at c j)))
      → Refused c (unless_false m more c)
  two-Refused text texts m more c h first short next =
      elim (Bool-cases (leb (length text) (buffering.room c.kii.internals))) [
        | inl fit ↦
            let one = first (leb→le _ _ fit) in
            let (j, e) =
              next one.internals (omega (arith, one.appended.left, length-append text texts)) in
            (j, bind_done m _ one.ends ∙ e)
        | inr large ↦ let (j, e) = short (leb_false→lt _ _ large) in (j, bind_done m _ e)
      ]

  pub write_all-Refused :
      (texts : List Bytes) (c : Context I W)
      → buffering.room c.kii.internals < length (joined texts)
      → Refused c (write_all (prv_writer sdk) texts c)
  unfolding write_all
  write_all-Refused [] c h = absurd (omega arith)
  write_all-Refused (text ∷ texts) c h =
      two-Refused text (joined texts) (prv_writer sdk text) (write_all (prv_writer sdk) texts) c h
        (prv_writer-Wrote text c) (prv_writer-Refused text c)
        (λ j h'. write_all-Refused texts (at c j) h')

  pub write_all-Wrote :
      (texts : List Bytes) (c : Context I W)
      → length (joined texts) ≤ buffering.room c.kii.internals
      → Wrote (joined texts) c (write_all (prv_writer sdk) texts c)
  unfolding write_all
  write_all-Wrote [] c h = record {
    internals = c.kii.internals;
    ends = refl;
    appended = Appended-none sdk buffering c.kii.internals;
  }
  write_all-Wrote (text ∷ texts) c h =
      let one = prv_writer-Wrote text c (fits_first sdk buffering text (joined texts) c h) in
      let more =
        write_all-Wrote texts (at c one.internals)
          (fits_second sdk buffering text (joined texts) c h one.appended) in
      record {
        internals = more.internals;
        ends = bind_done (prv_writer sdk text) _ one.ends ∙ more.ends;
        appended = Appended-both sdk buffering text (joined texts) one.appended more.appended;
      }

  line-Wrote :
      (line : Bytes)
      → NoNul line
      → (c : Context I W) → length line ≤ buffering.room c.kii.internals
      → Wrote line c (prv_writer sdk (c_text line) c)
  line-Wrote line t c h = rw (c_text_lem line t) (prv_writer-Wrote line c h)

  -- A file without NUL bytes is written whole, line by line, and as many rounds as it has bytes,
  -- and one, are enough.
  pub write_lines-Wrote :
      (fuel : ℕ) (bs : Bytes) (c : Context I W)
      → length bs < fuel
      → NoNul bs
      → length bs ≤ buffering.room c.kii.internals
      → Wrote bs c (write_lines (prv_writer sdk) fuel bs c)
  unfolding write_lines
  write_lines-Wrote zero bs c f t h = absurd (omega arith)
  write_lines-Wrote (suc fuel) [] c f t h = record {
    internals = c.kii.internals;
    ends = refl;
    appended = Appended-none sdk buffering c.kii.internals;
  }
  write_lines-Wrote (suc fuel) (b ∷ bs) c f t h =
      let (line, rest) = fgets 255 (b ∷ bs) in
      let read = fgets-Read 255 (b ∷ bs) t in
      let shorter = fgets-shorter 254 b bs in
      let h' : length (line ++ rest) ≤ buffering.room c.kii.internals = rw read.whole h in
      let one = line-Wrote line read.line_text c (fits_first sdk buffering line rest c h') in
      let more =
        write_lines-Wrote fuel rest (at c one.internals) (omega arith) read.rest_text
          (fits_second sdk buffering line rest c h' one.appended) in
      record {
        internals = more.internals;
        ends = bind_done (prv_writer sdk (c_text line)) _ one.ends ∙ more.ends;
        appended =
            subst (λ u. Appended sdk buffering u c.kii.internals more.internals) read.whole
              (Appended-both sdk buffering line rest one.appended more.appended);
      }

  pub write_lines-Refused :
      (fuel : ℕ) (bs : Bytes) (c : Context I W)
      → length bs < fuel
      → NoNul bs
      → buffering.room c.kii.internals < length bs
      → Refused c (write_lines (prv_writer sdk) fuel bs c)
  unfolding write_lines
  write_lines-Refused zero bs c f t h = absurd (omega arith)
  write_lines-Refused (suc fuel) [] c f t h = absurd (omega arith)
  write_lines-Refused (suc fuel) (b ∷ bs) c f t h =
      let (line, rest) = fgets 255 (b ∷ bs) in
      let read = fgets-Read 255 (b ∷ bs) t in
      let shorter = fgets-shorter 254 b bs in
      two-Refused line rest (prv_writer sdk (c_text line)) (write_lines (prv_writer sdk) fuel rest)
        c (rw read.whole h) (line-Wrote line read.line_text c)
        (λ h'. rw (c_text_lem line read.line_text) (prv_writer-Refused line c h'))
        (λ j h'. write_lines-Refused fuel rest (at c j) (omega arith) read.rest_text h')
