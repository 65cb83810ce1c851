-- ===== src/Command/Actions.antt =====
-- One action, and the loop over the actions of an alias.
pub mod Loop
use thing_if_thing_sdk.Prelude.{
  ◌<◌, Bool, true, false, Bytes, length, ℕ, ◌+◌, ◌≤◌, List, [], ◌∷◌, ◌++◌, Option, none, some, ◌≡◌,
  refl, sym, suc, ◌∙◌, ap, append_assoc, arith, length-append, if◌then◌else◌,
}
use thing_if_thing_sdk.Flow.{Outcome, done, Run, bind_done, pure, ◌>>=◌, ◌>>◌}
use thing_if_thing_sdk.Kii.{Sdk}
use thing_if_thing_sdk.Context.{Context}
use thing_if_thing_sdk.Request.Writes.{Buffering, Tests, Appended, at, Appended-both}
use thing_if_thing_sdk.Thing.{ActionHandler}
use thing_if_thing_sdk.Command.{handle_action, call_action_handler, append_comma, result_fails}
use thing_if_thing_sdk.Command.Items.{Item}
use thing_if_thing_sdk.Command.Memory.{byte_at, poke, text_at, until_nul}
use thing_if_thing_sdk.Command.Memory.Access.{NoNul, byte_at_lem, poke_lem, text_at_lem}
use thing_if_thing_sdk.Command.Results.{
  comma, result_text, HasMessage, result_fails-Tests, append_comma_lem, append_comma-short,
}

-- Where an item lies in a message: its key and its value between other bytes, with one byte (a
-- quotation mark, a comma or a bracket) behind each, which the code overwrites for a while.
pub record Placed (item : Item) (before key between value : Bytes) : Type 0 where
  pub key_at : item.key ≡ length before
  pub key_len : item.key_len ≡ length key
  pub value_at : item.value ≡ suc (length before + length key + length between)
  pub value_len : item.value_len ≡ length value
  pub key_text : NoNul key
  pub value_text : NoNul value

-- The message of such an item, with the bytes behind the key and the value given.
abbrev pub message_of : Bytes → Bytes → ℕ → Bytes → Bytes → ℕ → Bytes → Bytes
message_of before key k between value v after =
    before ++ (key ++ k ∷ (between ++ (value ++ v ∷ after)))

-- The text of the message up to the name of the alias, which ends in the NUL that the outer loop
-- wrote.
abbrev pub alias_before : Bytes → Bytes → Bytes → Bytes
alias_before start alias rest = start ++ (alias ++ 0 ∷ rest)

module _ {I W : Type 0} (sdk : Sdk I W) (buffering : Buffering sdk) (handler : ActionHandler W)
    (start alias rest : Bytes) (item : Item) (key between value after : Bytes) (k v : ℕ)
    (placed : Placed item (alias_before start alias rest) key between value) (alias_name : ℕ)
    (alias_at : alias_name ≡ length start) (alias_text : NoNul alias) (c : Context I W)
    (message : c.message
      ≡ message_of (alias_before start alias rest) key k between value v after) where
  abbrev before : Bytes
  before = alias_before start alias rest

  key_end : item.key + item.key_len ≡ length (before ++ key)
  key_end = rw (placed.key_at, placed.key_len) (sym (length-append before key))

  value_end :
      (b : ℕ) → item.value + item.value_len ≡ length (before ++ (key ++ b ∷ (between ++ value)))
  value_end b =
      rw (placed.value_at, placed.value_len)
        (omega (
          arith,
          length-append before (key ++ b ∷ (between ++ value)),
          length-append key (b ∷ (between ++ value)),
          length-append between value,
        ))

  value_start : item.value ≡ length (before ++ (key ++ 0 ∷ between))
  value_start =
      rw placed.value_at
        (omega (arith, length-append before (key ++ 0 ∷ between), length-append key (0 ∷ between)))

  -- The context once the key ends in a NUL.
  abbrev while_named : Context I W
  while_named = record c { message = (before ++ key) ++ 0 ∷ (between ++ (value ++ v ∷ after)) }

  -- The context while the handler runs: both texts end in a NUL.
  abbrev while_handled : Context I W
  while_handled = record c { message = (before ++ (key ++ 0 ∷ (between ++ value))) ++ 0 ∷ after }

  abbrev handled : Bool × Bytes × W
  handled = handler alias key value sdk.uninitialized c.world

  called :
      call_action_handler sdk (some handler) alias key value while_handled
      ≡ done (handled.0, handled.1) (record while_handled { world = handled.2 })
  unfolding call_action_handler
  called = refl

  -- The two bytes are put back as they were.
  restored :
      (c' : Context I W)
      → c'.message ≡ while_handled.message
      → (poke (item.key + item.key_len) k >> (poke (item.value + item.value_len) v >> pure true)) c'
        ≡ done true (record c' { message = c.message })
  restored c' e =
      bind_done (poke (item.key + item.key_len) k) _ (
        poke_lem c' (before ++ key) 0 (between ++ (value ++ 0 ∷ after)) _ k (e ∙ simp append_assoc)
          key_end)
      ∙ bind_done (poke (item.value + item.value_len) v) _ (
          poke_lem _ (before ++ (key ++ k ∷ (between ++ value))) 0 after _ v (simp append_assoc)
            (value_end k))
      ∙ ap (λ m. done true (record c' { message = m })) (sym (message ∙ simp append_assoc))

  module _ (alias_index action_index : ℕ) where
    abbrev rest_of_action : Bool × Bytes → Run (Context I W) Bool
    rest_of_action result = do
      append_comma sdk alias_index action_index
      overflowed ← result_fails sdk key result.0 result.1
      if overflowed
          then pure false
          else do poke (item.key + item.key_len) k; poke (item.value + item.value_len) v; pure true

    -- Up to the handler's return.
    until_handled :
        handle_action sdk (some handler) alias_name item alias_index action_index c
        ≡ rest_of_action (handled.0, handled.1) (record while_handled { world = handled.2 })
    unfolding handle_action
    until_handled =
        bind_done (byte_at (item.key + item.key_len)) _ (
          byte_at_lem c (before ++ key) k (between ++ (value ++ v ∷ after)) _
            (message ∙ simp append_assoc) key_end)
        ∙ bind_done (byte_at (item.value + item.value_len)) _ (
            byte_at_lem c (before ++ (key ++ k ∷ (between ++ value))) v after _
              (message ∙ simp append_assoc) (value_end k))
        ∙ bind_done (poke (item.key + item.key_len) 0) _ (
            poke_lem c (before ++ key) k (between ++ (value ++ v ∷ after)) _ 0
              (message ∙ simp append_assoc) key_end)
        ∙ bind_done (poke (item.value + item.value_len) 0) _ (
            poke_lem while_named (before ++ (key ++ 0 ∷ (between ++ value))) v after _ 0
              (simp append_assoc) (value_end 0))
        ∙ bind_done (text_at alias_name) _ (
            text_at_lem while_handled start alias
              (rest ++ (key ++ 0 ∷ (between ++ (value ++ 0 ∷ after)))) _ (simp append_assoc)
              alias_at alias_text)
        ∙ bind_done (text_at item.key) _ (
            text_at_lem while_handled before key (between ++ (value ++ 0 ∷ after)) _
              (simp append_assoc) placed.key_at placed.key_text)
        ∙ bind_done (text_at item.value) _ (
            text_at_lem while_handled (before ++ (key ++ 0 ∷ between)) value after _
              (simp append_assoc) value_start placed.value_text)
        ∙ bind_done (call_action_handler sdk (some handler) alias key value) rest_of_action called

    -- An action whose result fits: the handler is called once, with the alias, the name and the
    -- value as C strings; its result joins the body, after a comma unless it is the first of all;
    -- and the message is as it was.
    pub handle_action-done :
        (text : Bytes)
        → HasMessage handled.0 handled.1 text
        → length (comma alias_index action_index ++ result_text key handled.0 text)
          ≤ buffering.room c.kii.internals
        → (j : I) × (handle_action sdk (some handler) alias_name item alias_index action_index c
            ≡ done true (record (at c j) { world = handled.2 }))
          × Appended sdk buffering
              (comma alias_index action_index ++ result_text key handled.0 text)
              c.kii.internals
              j
    handle_action-done text said h =
        let c' : Context I W = record while_handled { world = handled.2 } in
        let (i, e, a) = append_comma_lem sdk buffering alias_index action_index c' (
          omega (
            arith,
            length-append (comma alias_index action_index) (result_text key handled.0 text),
          )) in
        let (j, e', b) =
          (result_fails-Tests sdk buffering key handled.0 handled.1 text said).when_fits (at c' i) (
            omega (
              arith,
              a.left,
              length-append (comma alias_index action_index) (result_text key handled.0 text),
            )) in
        (
          j,
          until_handled
              ∙ bind_done (append_comma sdk alias_index action_index) _ e
              ∙ bind_done (result_fails sdk key handled.0 handled.1) _ e'
              ∙ restored (at c' j) refl,
          Appended-both sdk buffering _ _ a b,
        )

    -- An action whose result does not fit: the handler is called, and the loops end.
    pub handle_action-short :
        (text : Bytes)
        → HasMessage handled.0 handled.1 text
        → buffering.room c.kii.internals
          < length (comma alias_index action_index ++ result_text key handled.0 text)
        → (j : I) × (t : Bytes) × (handle_action sdk
              (some handler)
              alias_name
              item
              alias_index
              action_index
              c
            ≡ done false (record (at c j) { message = t; world = handled.2 }))
    handle_action-short text said h =
        let c' : Context I W = record while_handled { world = handled.2 } in
        let (i, e, short) =
          append_comma-short sdk buffering alias_index action_index (result_text key handled.0 text)
            c' (omega arith) h in
        let (j, e') =
          (result_fails-Tests sdk buffering key handled.0 handled.1 text said).when_short (at c' i)
            short in
        (
          j,
          while_handled.message,
          until_handled
              ∙ bind_done (append_comma sdk alias_index action_index) _ e
              ∙ bind_done (result_fails sdk key handled.0 handled.1) _ e',
        )
