-- ===== src/Command/Results.antt =====
-- The text that one action adds to the results of a command.
use thing_if_thing_sdk.Prelude.{
  ap, refl, leb, leb→le, leb_false→lt, ◌<◌, arith, length-append, Bool, true, false, ◌||◌, Bytes,
  codes, length, ℕ, ◌≤◌, List, [], ◌∷◌, ◌++◌, none, some, if◌then◌else◌, ltb, ◌≡◌, inl, inr,
  append_assoc, append-nil, Bool-cases,
}
use thing_if_thing_sdk.Flow.{done, bind_done}
use thing_if_thing_sdk.Kii.{Sdk}
use thing_if_thing_sdk.Context.{Context}
use thing_if_thing_sdk.Request.{append_body}
use thing_if_thing_sdk.Request.Writes.{
  Buffering, Tests, Tests-text, Writes, any_fails-Tests, first, nothing, append_body-Writes,
  Appended, at, Appended-none,
}
use thing_if_thing_sdk.Request.Members.{
  json_string, optional_member, prv_append_key_value_bool-Writes,
  prv_append_key_value_string_optional-Writes,
}
use thing_if_thing_sdk.Request.Objects.{Pair, json_object}
use thing_if_thing_sdk.Command.{append_error_message, append_comma, result_fails}
use thing_if_thing_sdk.Command.Memory.{until_nul}

-- An entry of actionResults: the action's name with its result, and the message if it failed.
abbrev pub result_pairs : Bool → Bytes → List Pair
result_pairs true message = (codes "succeeded", false, codes "true") ∷ []
result_pairs false message =
    (codes "succeeded", false, codes "false") ∷ (codes "errorMessage", true, message) ∷ []

abbrev pub result_text : Bytes → Bool → Bytes → Bytes
result_text name succeeded message =
    codes "{"
    ++ (json_string name
        ++ (codes ":" ++ (json_object (result_pairs succeeded message) ++ codes "}")))

-- The comma in front of a result.
abbrev pub comma : ℕ → ℕ → Bytes
comma alias_index action_index = if ltb 0 alias_index || ltb 0 action_index then codes "," else []

-- The array that a failing handler leaves holds a C string.
abbrev pub HasMessage : Bool → Bytes → Bytes → Type 0
HasMessage true error message = Unit
HasMessage false error message = until_nul error ≡ some message

module _ {I W : Type 0} (sdk : Sdk I W) (buffering : Buffering sdk) where
  message_member : Bool → Bytes → Bytes
  message_member true message = []
  message_member false message = optional_member true true (codes "errorMessage") (some message)

  append_error_message-Writes :
      (succeeded : Bool) (error message : Bytes)
      → HasMessage succeeded error message
      → Writes sdk buffering
          (message_member succeeded message)
          (append_error_message sdk succeeded error)
  unfolding append_error_message message_member
  append_error_message-Writes true error message h =
      prv_append_key_value_string_optional-Writes sdk buffering true (codes "errorMessage") none
  append_error_message-Writes false error message h =
      rw (h, append_error_message)
        (prv_append_key_value_string_optional-Writes sdk buffering true (codes "errorMessage")
          (some message))

  -- The condition over the result of one action appends the entry of that action.
  pub result_fails-Tests :
      (name : Bytes) (succeeded : Bool) (error message : Bytes)
      → HasMessage succeeded error message
      → Tests sdk buffering
          (result_text name succeeded message)
          (result_fails sdk name succeeded error)
  unfolding result_fails message_member
  result_fails-Tests name succeeded error message h =
      Tests-text sdk buffering (same_text succeeded) (
        any_fails-Tests sdk buffering (
          first (append_body-Writes sdk buffering (codes "{\"")) (
            first (append_body-Writes sdk buffering name) (
              first (append_body-Writes sdk buffering (codes "\":{")) (
                first
                  (prv_append_key_value_bool-Writes sdk buffering false (codes "succeeded")
                    succeeded)
                  (first (append_error_message-Writes succeeded error message h)
                    (first (append_body-Writes sdk buffering (codes "}}")) nothing)))))))
    where
      same_text :
          (b : Bool)
          → codes "{\""
              ++ (name
                  ++ (codes "\":{"
                      ++ ((codes "\"succeeded\":" ++ (if b then codes "true" else codes "false"))
                          ++ (message_member b message ++ (codes "}}" ++ [])))))
            ≡ result_text name b message
      same_text true = simp (append_assoc, append-nil)
      same_text false = simp (append_assoc, append-nil)

  pub append_comma_lem :
      (alias_index action_index : ℕ) (c : Context I W)
      → length (comma alias_index action_index) ≤ buffering.room c.kii.internals
      → (j : I) × (append_comma sdk alias_index action_index c ≡ done tt (at c j))
        × Appended sdk buffering (comma alias_index action_index) c.kii.internals j
  unfolding append_comma
  append_comma_lem alias_index action_index c h =
      elim (Bool-cases (ltb 0 alias_index || ltb 0 action_index)) [
        | inl later ↦
            let (j, e, a) =
              (append_body-Writes sdk buffering (codes ",")).when_fits c (rw later at h) in
            (j, rw later (bind_done (append_body sdk (codes ",")) _ e), rw later a)
        | inr initial ↦ (c.kii.internals, rw initial, rw initial (Appended-none sdk buffering _))
      ]

  length-comma :
      (alias_index action_index : ℕ) (t : Bytes)
      → comma alias_index action_index ≡ t
      → length (comma alias_index action_index) ≡ length t
  length-comma alias_index action_index t e = ap length e

  -- A comma and a text that do not fit both: after the comma, written or not, the text does not fit.
  pub append_comma-short :
      (alias_index action_index : ℕ) (t : Bytes) (c : Context I W)
      → 0 < length t
      → buffering.room c.kii.internals < length (comma alias_index action_index ++ t)
      → (j : I) × (append_comma sdk alias_index action_index c ≡ done tt (at c j))
        × (buffering.room j < length t)
  unfolding append_comma append_body
  append_comma-short alias_index action_index t c some_text h =
      elim (Bool-cases
        (leb (length (comma alias_index action_index)) (buffering.room c.kii.internals))) [
          | inl fit ↦
              let (j, e, a) = append_comma_lem alias_index action_index c (leb→le _ _ fit) in
              (j, e, omega (arith, a.left, length-append (comma alias_index action_index) t))
          | inr short ↦
              let no_comma = leb_false→lt _ _ short in
              elim (Bool-cases (ltb 0 alias_index || ltb 0 action_index)) [
                | inl later ↦
                    let none_left : buffering.room c.kii.internals < 1 = omega (
                      arith,
                      no_comma,
                      length-comma alias_index action_index (codes ",") (rw later refl),
                    ) in
                    (
                      buffering.spill (codes ",") c.kii.internals,
                      rw later (rw (buffering.overflows (codes ",") c.kii c.world none_left) refl),
                      omega (arith, none_left, buffering.room-spill (codes ",") c.kii.internals),
                    )
                | inr initial ↦ absurd (
                    omega
                      (arith, no_comma, length-comma alias_index action_index [] (rw initial refl)))
              ]
        ]
