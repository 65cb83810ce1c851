-- ===== src/Command/Commas.antt =====
-- Where the commas stand between the results of a command.
use thing_if_thing_sdk.Prelude.{
  some, length, ◌≤◌, Bytes, codes, ℕ, suc, ◌+◌, ◌<◌, List, [], ◌∷◌, ◌++◌, ◌≡◌, refl, append_assoc,
  arith,
}
use thing_if_thing_sdk.Kii.{Sdk}
use thing_if_thing_sdk.Thing.{ActionHandler}
use thing_if_thing_sdk.Command.Results.{comma, result_text}
use mathlib.Core.Path.{subst}
use thing_if_thing_sdk.Context.{Context}
use thing_if_thing_sdk.Request.Writes.{Buffering}
use thing_if_thing_sdk.Command.{alias_loop}
use thing_if_thing_sdk.Command.Actions.Loop.{
  Explains, Completed, Action, message_in, perform_actions,
}
use thing_if_thing_sdk.Command.Aliases.{
  AliasesAt, rounds, alias_loop-Completed, Alias, perform_aliases,
}

-- The elements of a JSON array behind another element, and from the first.
abbrev pub each_after_comma : List Bytes → Bytes
each_after_comma [] = []
each_after_comma (t ∷ ts) = codes "," ++ (t ++ each_after_comma ts)

abbrev pub elements : List Bytes → Bytes
elements [] = []
elements (t ∷ ts) = t ++ each_after_comma ts

each_after_comma-append :
    (ts us : List Bytes) → each_after_comma (ts ++ us) ≡ each_after_comma ts ++ each_after_comma us
each_after_comma-append [] us = refl
each_after_comma-append (t ∷ ts) us = simp (each_after_comma-append ts us, append_assoc)

module _ {I W : Type 0} (sdk : Sdk I W) (handler : ActionHandler W) where
  -- The entries of the results, one for each action, and the world that the handler leaves.
  abbrev pub action_entries : Bytes → List Action → W → List Bytes × W
  action_entries alias [] w = ([], w)
  action_entries alias (a ∷ more) w =
      let (succeeded, error, w') = handler alias a.name a.value sdk.uninitialized w in
      let (ts, w'') = action_entries alias more w' in
      (result_text a.name succeeded (message_in error) ∷ ts, w'')

  abbrev pub alias_entries : List Alias → W → List Bytes × W
  alias_entries [] w = ([], w)
  alias_entries (a ∷ more) w =
      let (ts, w') = action_entries a.name a.actions w in
      let (us, w'') = alias_entries more w' in (ts ++ us, w'')

  module _ (alias : Bytes) (alias_index : ℕ) where
    comma_later : (i : ℕ) → 0 < alias_index + i → comma alias_index i ≡ codes ","
    comma_later i h = ground arith

    actions_later :
        (i : ℕ) (actions : List Action) (w : W)
        → 0 < alias_index + i
        → perform_actions sdk handler alias alias_index i actions w ≡ (
          each_after_comma (action_entries alias actions w).0,
          (action_entries alias actions w).1,
        )
    actions_later i [] w h = refl
    actions_later i (a ∷ more) w h =
        rw
          (
            actions_later (suc i) more (handler alias a.name a.value sdk.uninitialized w).2
                (omega arith),
            comma_later i h,
          )
          (simp append_assoc)

  aliases_later :
      (i : ℕ) (aliases : List Alias) (w : W)
      → 0 < i
      → perform_aliases sdk handler i aliases w
        ≡ (each_after_comma (alias_entries aliases w).0, (alias_entries aliases w).1)
  aliases_later i [] w h = refl
  aliases_later i (a ∷ more) w h =
      rw
        (
          actions_later a.name i 0 a.actions w (omega arith),
          aliases_later (suc i) more (action_entries a.name a.actions w).1 (omega arith),
        )
        (rw each_after_comma-append)

  -- The results of the first alias with those of the others behind them.
  abbrev pub commas_of : List Action → List Bytes → Bytes
  commas_of [] es = each_after_comma es
  commas_of (a ∷ more) es = elements es

  first_alias :
      (alias : Bytes) (actions : List Action) (more : List Alias) (w : W)
      → let (text, w') = perform_actions sdk handler alias 0 0 actions w in
        let (ts, w'') = action_entries alias actions w in
        ◌≡◌ {A = Bytes × W}
          (text ++ each_after_comma (alias_entries more w').0, (alias_entries more w').1)
          (commas_of actions (ts ++ (alias_entries more w'').0), (alias_entries more w'').1)
  first_alias alias [] more w = refl
  first_alias alias (a ∷ actions) more w =
      rw
        (actions_later alias 0 1 actions (handler alias a.name a.value sdk.uninitialized w).2
          (omega arith))
        (rw each_after_comma-append (simp append_assoc))

  perform_aliases-commas :
      (a : Alias) (more : List Alias) (w : W)
      → let (es, w') = alias_entries (a ∷ more) w in
        perform_aliases sdk handler 0 (a ∷ more) w ≡ (commas_of a.actions es, w')
  perform_aliases-commas a more w =
      rw (aliases_later 1 more (perform_actions sdk handler a.name 0 0 a.actions w).1 (omega arith))
        (first_alias a.name a.actions more w)

module _ {I W : Type 0} (sdk : Sdk I W) (buffering : Buffering sdk) (n : ℕ)
    (handler : ActionHandler W) (explains : Explains sdk handler) (m : Bytes) (str len : ℕ) where
  -- Over a command whose first alias has an action, the loop over the aliases appends the entries of
  -- all actions in order with commas between them, as the elements of a JSON array. Where the first
  -- alias has none, every entry follows a comma, the first one too, which is no JSON array.
  pub alias_loop-commas :
      (fuel : ℕ) (a : Alias) (more : List Alias) (c : Context I W)
      → rounds (a ∷ more) < fuel
      → c.message ≡ m
      → n ≤ length c.kii.tokens
      → AliasesAt sdk n m str len 0 (a ∷ more)
      → let (es, w) = alias_entries sdk handler (a ∷ more) c.world in
        length (commas_of sdk handler a.actions es) ≤ buffering.room c.kii.internals
        → Completed sdk buffering n
            (commas_of sdk handler a.actions es)
            w
            c
            (alias_loop sdk (some handler) fuel str len 0 c)
  alias_loop-commas fuel a more c f e t p h =
      subst
        (λ r.
          length r.0 ≤ buffering.room c.kii.internals
          → Completed sdk buffering n r.0 r.1 c (alias_loop sdk (some handler) fuel str len 0 c))
        (perform_aliases-commas sdk handler a more c.world)
        (alias_loop-Completed sdk buffering n handler explains m str len fuel 0 (a ∷ more) c f e t
          p)
        h
