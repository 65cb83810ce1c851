-- ===== src/Command/Aliases.antt =====
-- The loop over the aliases of a command, against the list of the aliases.
use thing_if_thing_sdk.Prelude.{
  Bool, true, false, if◌then◌else◌, Bytes, length, ℕ, zero, suc, ◌+◌, ◌≤◌, ◌<◌, List, [], ◌∷◌, ◌++◌,
  some, ◌≡◌, refl, sym, ◌∙◌, ap, append_assoc, arith, length-append,
}
use thing_if_thing_sdk.Flow.{done, Run, ◌>>=◌, ◌>>◌, pure, bind_done}
use thing_if_thing_sdk.Kii.{Sdk}
use thing_if_thing_sdk.Context.{Context}
use thing_if_thing_sdk.Request.Writes.{
  Buffering, Appended-both, Appended-none, fits_first, fits_second,
}
use thing_if_thing_sdk.Thing.{ActionHandler}
use thing_if_thing_sdk.Command.{action_loop, alias_loop}
use thing_if_thing_sdk.Command.Items.{Item, got, finish, get_key_and_value_at_index}
use thing_if_thing_sdk.Command.Memory.{byte_at, poke}
use thing_if_thing_sdk.Command.Memory.Access.{NoNul, byte_at_lem, poke_lem}
use thing_if_thing_sdk.Command.Actions.Loop.{
  Action, ActionsAt, Yields, Explains, perform_actions, Completed, action_loop-Completed,
}

-- An alias of a command, with its actions.
pub record Alias : Type 0 where
  pub item : Item
  pub name : Bytes
  pub actions : List Action

-- The rounds that both loops take together.
abbrev pub rounds : List Alias → ℕ
rounds [] = 0
rounds (a ∷ more) = suc (length a.actions) + rounds more

-- The results of a command in order, and the world that the handler leaves.
abbrev pub perform_aliases :
    {I W : Type 0} → Sdk I W → ActionHandler W → ℕ → List Alias → W → Bytes × W
perform_aliases sdk handler alias_index [] w = ([], w)
perform_aliases sdk handler alias_index (a ∷ more) w =
    let (text, w') = perform_actions sdk handler a.name alias_index 0 a.actions w in
    let (others, w'') = perform_aliases sdk handler (suc alias_index) more w' in
    (text ++ others, w'')

module _ {I W : Type 0} (sdk : Sdk I W) (n : ℕ) (m : Bytes) where
  -- The alias lies in the message `m`. Its actions are found while its name ends in a NUL.
  pub record AliasAt (a : Alias) : Type 0 where
    pub start : Bytes
    pub rest : Bytes
    pub behind : ℕ
    pub lies : m ≡ start ++ (a.name ++ behind ∷ rest)
    pub key_at : a.item.key ≡ length start
    pub key_len : a.item.key_len ≡ length a.name
    pub key_text : NoNul a.name
    pub actions_at :
        ActionsAt sdk n
          ((start ++ a.name) ++ 0 ∷ rest)
          start
          a.name
          a.item.value
          a.item.value_len
          0
          a.actions

  -- From index `i` on the array of `len` bytes at `str` holds exactly these aliases.
  abbrev pub AliasesAt : ℕ → ℕ → ℕ → List Alias → Type 0
  AliasesAt str len i [] = Yields sdk n m str len i finish
  AliasesAt str len i (a ∷ more) =
      Yields sdk n m str len i (got a.item) × AliasAt a × AliasesAt str len (suc i) more

-- One round of the loop, around the loop over the alias's actions.
module _ {I W : Type 0} (sdk : Sdk I W) (n : ℕ) (handler : ActionHandler W) (m : Bytes)
    (str len fuel i : ℕ) (a : Alias) (place : AliasAt sdk n m a) where
  -- The message while the alias is handled.
  abbrev pub while_alias : Bytes
  while_alias = (place.start ++ a.name) ++ 0 ∷ place.rest

  whole : m ≡ (place.start ++ a.name) ++ place.behind ∷ place.rest
  whole = place.lies ∙ simp append_assoc

  key_end : a.item.key + a.item.key_len ≡ length (place.start ++ a.name)
  key_end = omega (arith, place.key_at, place.key_len, length-append place.start a.name)

  abbrev pub rest_of_alias : Bool → Run (Context I W) Bool
  rest_of_alias handled =
      if handled
      then (do
        poke (a.item.key + a.item.key_len) place.behind
        alias_loop sdk (some handler) fuel str len (suc i))
      else pure false

  pub alias_loop-entered :
      (c c1 : Context I W)
      → get_key_and_value_at_index sdk str len i c ≡ done (got a.item) c1
      → c1.message ≡ m
      → alias_loop sdk (some handler) (suc fuel) str len i c
        ≡ (action_loop sdk (some handler) fuel a.item.key a.item.value a.item.value_len i 0
              >>= rest_of_alias)
            (record c1 { message = while_alias })
  unfolding alias_loop
  alias_loop-entered c c1 r e =
      bind_done (get_key_and_value_at_index sdk str len i) _ r
      ∙ bind_done (byte_at (a.item.key + a.item.key_len)) _
          (byte_at_lem c1 (place.start ++ a.name) place.behind place.rest _ (e ∙ whole) key_end)
      ∙ bind_done (poke (a.item.key + a.item.key_len) 0) _
          (poke_lem c1 (place.start ++ a.name) place.behind place.rest _ 0 (e ∙ whole) key_end)

  pub alias_loop-left :
      (c : Context I W)
      → c.message ≡ m
      → rest_of_alias true (record c { message = while_alias })
        ≡ alias_loop sdk (some handler) fuel str len (suc i) c
  alias_loop-left c e =
      bind_done (poke (a.item.key + a.item.key_len) place.behind) _ (
        poke_lem (record c { message = while_alias }) (place.start ++ a.name) 0 place.rest _
          place.behind refl key_end)
      ∙ ap
          (λ (t : Bytes).
            alias_loop sdk (some handler) fuel str len (suc i) (record c { message = t }))
          (sym (e ∙ whole))

module _ {I W : Type 0} (sdk : Sdk I W) (buffering : Buffering sdk) (n : ℕ)
    (handler : ActionHandler W) (explains : Explains sdk handler) (m : Bytes) (str len : ℕ) where
  -- The loop over the aliases performs all actions of all aliases in order, appends their results,
  -- if they fit, and leaves the message as it was. As many rounds as there are aliases and actions
  -- are enough.
  pub alias_loop-Completed :
      (fuel i : ℕ) (aliases : List Alias) (c : Context I W)
      → rounds aliases < fuel
      → c.message ≡ m
      → n ≤ length c.kii.tokens
      → AliasesAt sdk n m str len i aliases
      → let (text, w) = perform_aliases sdk handler i aliases c.world in
        length text ≤ buffering.room c.kii.internals
        → Completed sdk buffering n text w c (alias_loop sdk (some handler) fuel str len i c)
  unfolding alias_loop
  alias_loop-Completed zero i aliases c f e t p h = absurd (omega arith)
  alias_loop-Completed (suc fuel) i [] c f e t p h =
      let (tokens, enough, r) = p c e t in
      record {
        internals = c.kii.internals;
        tokens = tokens;
        enough = enough;
        ends = bind_done (get_key_and_value_at_index sdk str len i) _ r;
        appended = Appended-none sdk buffering c.kii.internals;
      }
  alias_loop-Completed (suc fuel) i (a ∷ more) c f e t p h =
      let (tokens, enough, r) = p.0 c e t in
      let c1 : Context I W = record c { kii = record c.kii { tokens = tokens } } in
      let place = p.1 in
      let c2 : Context I W = record c1 {
        message = while_alias sdk n handler m str len fuel i a place;
      } in
      let (text, w1) = perform_actions sdk handler a.name i 0 a.actions c.world in
      let others = (perform_aliases sdk handler (suc i) more w1).0 in
      let inner =
        action_loop-Completed sdk buffering n handler explains
          (while_alias sdk n handler m str len fuel i a place) place.start a.name a.item.key
          place.key_at place.key_text a.item.value a.item.value_len i fuel 0 a.actions c2
          (omega arith) refl enough place.actions_at (fits_first sdk buffering text others c h) in
      let c3 : Context I W = record c {
        kii = record c.kii { internals = inner.internals; tokens = inner.tokens };
        world = w1;
      } in
      let ih =
        alias_loop-Completed fuel (suc i) more c3 (omega arith) e inner.enough p.2
          (fits_second sdk buffering text others c h inner.appended) in
      record {
        internals = ih.internals;
        tokens = ih.tokens;
        enough = ih.enough;
        ends =
            alias_loop-entered sdk n handler m str len fuel i a place c c1 r e
            ∙ bind_done
                (action_loop sdk (some handler) fuel a.item.key a.item.value a.item.value_len i 0) _
                inner.ends
            ∙ alias_loop-left sdk n handler m str len fuel i a place c3 e
            ∙ ih.ends;
        appended = Appended-both sdk buffering text others inner.appended ih.appended;
      }
