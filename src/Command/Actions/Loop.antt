-- ===== src/Command/Actions/Loop.antt =====
-- The loop over the actions of an alias, against the list of the actions.
use thing_if_thing_sdk.Prelude.{
  Bool, true, Bytes, length, ℕ, zero, suc, ◌≤◌, ◌<◌, List, [], ◌∷◌, ◌++◌, none, some, ◌≡◌, ◌∙◌,
  arith,
}
use thing_if_thing_sdk.Flow.{Outcome, done, bind_done}
use thing_if_thing_sdk.Kii.{Sdk, Token}
use thing_if_thing_sdk.Context.{Context}
use thing_if_thing_sdk.Request.Writes.{
  Buffering, Appended, at, Appended-both, Appended-none, fits_first, fits_second,
}
use thing_if_thing_sdk.Thing.{ActionHandler}
use thing_if_thing_sdk.Command.{handle_action, action_loop}
use thing_if_thing_sdk.Command.Items.{Item, KeyValue, got, finish, get_key_and_value_at_index}
use thing_if_thing_sdk.Command.Memory.{until_nul}
use thing_if_thing_sdk.Command.Memory.Access.{NoNul}
use thing_if_thing_sdk.Command.Results.{comma, result_text, HasMessage}
use thing_if_thing_sdk.Command.Actions.{Placed, alias_before, message_of, handle_action-done}

-- An action of a command: where it lies, its name and its value.
pub record Action : Type 0 where
  pub item : Item
  pub name : Bytes
  pub value : Bytes

-- The error message in the array that a handler leaves.
abbrev pub message_in : Bytes → Bytes
message_in error = elim (until_nul error) [ none ↦ [] | some text ↦ text ]

-- The action lies in the message `m`, behind the alias, whose name ends in a NUL.
pub record ActionAt (m start alias : Bytes) (a : Action) : Type 0 where
  pub rest : Bytes
  pub between : Bytes
  pub after : Bytes
  pub behind_name : ℕ
  pub behind_value : ℕ
  pub placed : Placed a.item (alias_before start alias rest) a.name between a.value
  pub lies :
      m
      ≡ message_of
          (alias_before start alias rest)
          a.name
          behind_name
          between
          a.value
          behind_value
          after

module _ {I W : Type 0} (sdk : Sdk I W) (handler : ActionHandler W) where
  -- A handler that fails leaves a C string as its message.
  abbrev pub Explains : Type 0
  Explains =
      (alias name value : Bytes) (w : W)
      → let (succeeded, error, w') = handler alias name value sdk.uninitialized w in
        HasMessage succeeded error (message_in error)

  -- The results of the actions of one alias in order, and the world that the handler leaves.
  abbrev pub perform_actions : Bytes → ℕ → ℕ → List Action → W → Bytes × W
  perform_actions alias alias_index action_index [] w = ([], w)
  perform_actions alias alias_index action_index (a ∷ more) w =
      let (succeeded, error, w') = handler alias a.name a.value sdk.uninitialized w in
      let (text, w'') = perform_actions alias alias_index (suc action_index) more w' in
      (
        (comma alias_index action_index ++ result_text a.name succeeded (message_in error)) ++ text,
        w'',
      )

-- With `n` tokens or more, the parser finds `kv` at index `i` of the array of `len` bytes at `str` in
-- the message `m`; only the tokens change.
abbrev pub Yields : {I W : Type 0} → Sdk I W → ℕ → Bytes → ℕ → ℕ → ℕ → KeyValue → Type 0
Yields {I} {W} sdk n m str len i kv =
    (c : Context I W)
    → c.message ≡ m
    → n ≤ length c.kii.tokens
    → (tokens : List Token) × (n ≤ length tokens)
      × (get_key_and_value_at_index sdk str len i c
          ≡ done kv (record c { kii = record c.kii { tokens = tokens } }))

module _ {I W : Type 0} (sdk : Sdk I W) (n : ℕ) (m start alias : Bytes) (str len : ℕ) where
  -- From index `i` on the array holds exactly these actions.
  abbrev pub ActionsAt : ℕ → List Action → Type 0
  ActionsAt i [] = Yields sdk n m str len i finish
  ActionsAt i (a ∷ more) =
      Yields sdk n m str len i (got a.item) × ActionAt m start alias a × ActionsAt (suc i) more

module _ {I W : Type 0} (sdk : Sdk I W) (buffering : Buffering sdk) (n : ℕ) where
  -- A loop ran to its end from `c`: it appended `text`, left the world `w`, and the message as it was.
  pub record Completed (text : Bytes) (w : W) (c : Context I W) (r : Outcome (Context I W) Bool)
      : Type 0 where
    pub internals : I
    pub tokens : List Token
    pub enough : n ≤ length tokens
    pub ends :
        r
        ≡ done true
            (record c { kii = record c.kii { internals = internals; tokens = tokens }; world = w })
    pub appended : Appended sdk buffering text c.kii.internals internals

  module _ (handler : ActionHandler W) (explains : Explains sdk handler) (m start alias : Bytes)
      (alias_name : ℕ) (alias_at : alias_name ≡ length start) (alias_text : NoNul alias)
      (str len alias_index : ℕ) where
    -- The loop over the actions of an alias calls the handler for each of them, once and in order,
    -- and appends all results, if they fit.
    pub action_loop-Completed :
        (fuel i : ℕ) (more : List Action) (c : Context I W)
        → length more < fuel
        → c.message ≡ m
        → n ≤ length c.kii.tokens
        → ActionsAt sdk n m start alias str len i more
        → let (text, w) = perform_actions sdk handler alias alias_index i more c.world in
          length text ≤ buffering.room c.kii.internals
          → Completed text w c
              (action_loop sdk (some handler) fuel alias_name str len alias_index i c)
    unfolding action_loop
    action_loop-Completed zero i more c f e t p h = absurd (omega arith)
    action_loop-Completed (suc fuel) i [] c f e t p h =
        let (tokens, enough, r) = p c e t in
        record {
          internals = c.kii.internals;
          tokens = tokens;
          enough = enough;
          ends = bind_done (get_key_and_value_at_index sdk str len i) _ r;
          appended = Appended-none sdk buffering c.kii.internals;
        }
    action_loop-Completed (suc fuel) i (a ∷ more) c f e t p h =
        let (tokens, enough, r) = p.0 c e t in
        let c1 : Context I W = record c { kii = record c.kii { tokens = tokens } } in
        let place = p.1 in
        let (succeeded, error, w1) = handler alias a.name a.value sdk.uninitialized c.world in
        let one = comma alias_index i ++ result_text a.name succeeded (message_in error) in
        let others = (perform_actions sdk handler alias alias_index (suc i) more w1).0 in
        let (j, r', b) =
          handle_action-done sdk buffering handler start alias place.rest a.item a.name
            place.between a.value place.after place.behind_name place.behind_value place.placed
            alias_name alias_at alias_text c1 (e ∙ place.lies) alias_index i (message_in error)
            (explains alias a.name a.value c.world) (fits_first sdk buffering one others c h) in
        let c2 : Context I W = record (at c1 j) { world = w1 } in
        let ih =
          action_loop-Completed fuel (suc i) more c2 (omega arith) e enough p.2
            (fits_second sdk buffering one others c h b) in
        record {
          internals = ih.internals;
          tokens = ih.tokens;
          enough = ih.enough;
          ends =
              bind_done (get_key_and_value_at_index sdk str len i) _ r
              ∙ bind_done (handle_action sdk (some handler) alias_name a.item alias_index i) _ r'
              ∙ ih.ends;
          appended = Appended-both sdk buffering one others b ih.appended;
        }
