-- ===== src/Command/Items/Found.antt =====
-- From the answers of the JSON parsers to the items that get_key_and_value_at_index hands out.
use thing_if_thing_sdk.Prelude.{
  Bytes, codes, length, take, drop, ℕ, ◌+◌, ◌≤◌, ◌<◌, pos, List, [], ◌∷◌, ◌++◌, some, ◌≡◌, ◌∙◌,
  arith, le→leb, lt→leb_false,
}
use thing_if_thing_sdk.Flow.{done, bind_done}
use thing_if_thing_sdk.Kii.{
  Sdk, Token, object, string, Field, ParseResult, success, partial_success,
}
use thing_if_thing_sdk.Context.{Context, sprintf_into}
use thing_if_thing_sdk.Session.{prv_kii_thing_if_json_read_object}
use thing_if_thing_sdk.Command.Memory.{slice, distance}
use thing_if_thing_sdk.Command.Items.{
  item_field, Item, got, finish, decimal, prv_kii_thing_if_get_key_and_value_from_json, item_of,
  get_key_and_value_at_index, key_and_value,
}

-- The `len` bytes at `str` in the message are `text`.
pub record Holds (m : Bytes) (str len : ℕ) (text : Bytes) : Type 0 where
  pub inside : str + len ≤ length m
  pub bytes : take len (drop str m) ≡ text

-- The path of element `i`, as the code spells it.
abbrev pub index_path : ℕ → Bytes
index_path i = codes "/[" ++ (decimal i ++ codes "]")

module _ {I W : Type 0} (sdk : Sdk I W) (n : ℕ) where
  -- With `n` tokens or more, kii_json_read_object answers `r` for element `i` of the array `text`,
  -- and puts it from `start` to `end`.
  abbrev pub Reads : Bytes → ℕ → ParseResult → ℕ → ℕ → Type 0
  Reads text i r start end =
      (tokens : List Token)
      → n ≤ length tokens
      → (t : List Token) × (f : Field) × (n ≤ length t)
        × (sdk.kii_json_read_object tokens text (length text) (item_field sdk (index_path i) ∷ [])
            ≡ (r, t, f ∷ []))
        × (f.start ≡ start)
        × (f.end ≡ end)

  -- With `n` tokens or more, jsmn_parse takes `text` for an object whose first member has its key and
  -- its value at these places.
  abbrev pub Parses : Bytes → ℕ → ℕ → ℕ → ℕ → Type 0
  Parses text key_start key_end value_start value_end =
      (tokens : List Token)
      → n ≤ length tokens
      → (count : ℕ) × (root : Token) × (key : Token) × (value : Token) × (others : List Token) × (n
          ≤ length (root ∷ key ∷ value ∷ others))
        × (sdk.jsmn_parse text (length text) tokens ≡ (pos count, root ∷ key ∷ value ∷ others))
        × (root.type ≡ object)
        × (key.type ≡ string)
        × (key.start ≡ key_start)
        × (key.end ≡ key_end)
        × (value.start ≡ value_start)
        × (value.end ≡ value_end)

  module _ (m : Bytes) where
    slice_lem :
        (str len : ℕ) {text : Bytes} (c : Context I W)
        → Holds m str len text
        → c.message ≡ m
        → slice str len c ≡ done text c
    slice_lem str len c held e = rw e (rw (le→leb (str + len) (length m) held.inside, held.bytes))

    key_and_value_lem :
        (str : ℕ) (root key value : Token) (others : List Token) (c : Context I W) {ks ke vs ve : ℕ}
        → root.type ≡ object
        → key.type ≡ string
        → key.start ≡ ks
        → key.end ≡ ke
        → value.start ≡ vs
        → value.end ≡ ve
        → key_and_value sdk str (root ∷ key ∷ value ∷ others) c
          ≡ done
              (some (record {
                key = str + ks;
                key_len = distance ks ke;
                value = str + vs;
                value_len = distance vs ve;
              }))
              c
    unfolding key_and_value
    key_and_value_lem str root key value others c o s k0 k1 v0 v1 =
        rw o (rw s (rw (k0, k1, v0, v1)))

    json_read_lem :
        (text : Bytes) (fields : List Field) (c : Context I W) {r : ParseResult} {t : List Token}
        {fs : List Field}
        → sdk.kii_json_read_object c.kii.tokens text (length text) fields ≡ (r, t, fs)
        → prv_kii_thing_if_json_read_object sdk text fields c
          ≡ done (r, fs) (record c { kii = record c.kii { tokens = t } })
    unfolding prv_kii_thing_if_json_read_object
    json_read_lem text fields c e = rw e

    index_written :
        (i : ℕ) (c : Context I W)
        → length (index_path i) < sdk.ulong_buf_size
        → sprintf_into sdk.ulong_buf_size (index_path i) c ≡ done (index_path i) c
    index_written i c h = rw (lt→leb_false sdk.ulong_buf_size (length (index_path i)) h)

    item_of_lem :
        (str : ℕ) (f : Field) (c : Context I W) {start end : ℕ} {item : Item} {t : List Token}
        → f.start ≡ start
        → f.end ≡ end
        → prv_kii_thing_if_get_key_and_value_from_json sdk (str + start) (distance start end) c
          ≡ done (some item) (record c { kii = record c.kii { tokens = t } })
        → item_of sdk str success (f ∷ []) c
          ≡ done (got item) (record c { kii = record c.kii { tokens = t } })
    unfolding item_of
    item_of_lem str f c {start} {end} f0 f1 q =
        rw (f0, f1)
          (bind_done
            (prv_kii_thing_if_get_key_and_value_from_json sdk (str + start) (distance start end)) _
            q)

    from_json :
        (str len : ℕ) (text : Bytes) (ks ke vs ve : ℕ)
        → Holds m str len text
        → Parses text ks ke vs ve
        → (c : Context I W) → c.message ≡ m
        → n ≤ length c.kii.tokens
        → (t : List Token) × (n ≤ length t)
          × (prv_kii_thing_if_get_key_and_value_from_json sdk str len c
              ≡ done
                  (some (record {
                    key = str + ks;
                    key_len = distance ks ke;
                    value = str + vs;
                    value_len = distance vs ve;
                  }))
                  (record c { kii = record c.kii { tokens = t } }))
    unfolding prv_kii_thing_if_get_key_and_value_from_json
    from_json str len text ks ke vs ve held parses c e h =
        let (count, root, key, value, others, enough, p, o, s, k0, k1, v0, v1) =
          parses c.kii.tokens h in
        (
          root ∷ key ∷ value ∷ others,
          enough,
          bind_done (slice str len) _ (slice_lem str len c held e)
              ∙ rw p (
                  rw (le→leb 0 count (omega arith))
                    (key_and_value_lem str root key value others _ o s k0 k1 v0 v1)),
        )

    -- Where the parsers find element `i` of an array in the message, and in it an object with a member,
    -- get_key_and_value_at_index hands out the places of the member's key and value in the message,
    -- and changes nothing but the tokens. `str` is the offset of the array.
    pub get_key_and_value_at_index-got :
        (str len i start end ks ke vs ve : ℕ) (text element : Bytes)
        → length (index_path i) < sdk.ulong_buf_size
        → Holds m str len text
        → Reads text i success start end
        → Holds m (str + start) (distance start end) element
        → Parses element ks ke vs ve
        → (c : Context I W) → c.message ≡ m
        → n ≤ length c.kii.tokens
        → (t : List Token) × (n ≤ length t)
          × (get_key_and_value_at_index sdk str len i c
              ≡ done
                  (got (record {
                    key = str + start + ks;
                    key_len = distance ks ke;
                    value = str + start + vs;
                    value_len = distance vs ve;
                  }))
                  (record c { kii = record c.kii { tokens = t } }))
    unfolding get_key_and_value_at_index
    get_key_and_value_at_index-got str len i start end ks ke vs ve text element size held reads
          held' parses c e h =
        let (t, f, enough, p, f0, f1) = reads c.kii.tokens h in
        let c1 : Context I W = record c { kii = record c.kii { tokens = t } } in
        let (u, enough', q) =
          from_json (str + start) (distance start end) element ks ke vs ve held' parses c1 e
            enough in
        (
          u,
          enough',
          bind_done (sprintf_into sdk.ulong_buf_size (index_path i)) _ (index_written i c size)
              ∙ bind_done (slice str len) _ (slice_lem str len c held e)
              ∙ bind_done
                  (prv_kii_thing_if_json_read_object sdk text (item_field sdk (index_path i) ∷ []))
                  _ (json_read_lem text _ c p)
              ∙ item_of_lem str f c1 f0 f1 q,
        )

    -- Where the parser only partly succeeds on element `i`, the array is at its end.
    pub get_key_and_value_at_index-finish :
        (str len i start end : ℕ) (text : Bytes)
        → length (index_path i) < sdk.ulong_buf_size
        → Holds m str len text
        → Reads text i partial_success start end
        → (c : Context I W) → c.message ≡ m
        → n ≤ length c.kii.tokens
        → (t : List Token) × (n ≤ length t)
          × (get_key_and_value_at_index sdk str len i c
              ≡ done finish (record c { kii = record c.kii { tokens = t } }))
    unfolding get_key_and_value_at_index
    get_key_and_value_at_index-finish str len i start end text size held reads c e h =
        let (t, f, enough, p, f0, f1) = reads c.kii.tokens h in
        (
          t,
          enough,
          bind_done (sprintf_into sdk.ulong_buf_size (index_path i)) _ (index_written i c size)
              ∙ bind_done (slice str len) _ (slice_lem str len c held e)
              ∙ bind_done
                  (prv_kii_thing_if_json_read_object sdk text (item_field sdk (index_path i) ∷ []))
                  _ (json_read_lem text _ c p),
        )
