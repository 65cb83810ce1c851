-- ===== src/Cc3200/Wlan/Events.antt =====
-- What holds of the globals of the CC3200 sample after any events of SimpleLink.
use thing_if_thing_sdk.Prelude.{
  true, false, Bytes, length, take, drop, ℕ, zero, suc, ◌≤◌, List, [], ◌∷◌, ◌++◌, none, some, ◌≡◌,
  refl, sym, ap, ◌∙◌, arith, le→leb, length-append,
}
use mathlib.Core.Bool.{true≢false}
use thing_if_thing_sdk.Flow.{Returns, Returns-continue}
use thing_if_thing_sdk.Cc3200.Wlan.{
  Globals, Common, Event, wlan_event, net_app_event, sta_connected, sta_disconnected,
  other_wlan_event, ip_acquired, other_net_app_event, zeros, copy, initialize_app_variables,
  simple_link_wlan_event_handler, simple_link_net_app_event_handler, handle_event, handle_events,
}

-- What SimpleLink documents of the macros on the status, and of the lengths.
pub record Bits (common : Common) : Type 0 where
  pub set_connection :
      (s : ℕ) → common.is_connected (common.set_status_bit s common.status_bit_connection) ≡ true
  pub set_ip_keeps :
      (s : ℕ)
      → common.is_connected (common.set_status_bit s common.status_bit_ip_aquired)
        ≡ common.is_connected s
  pub bssid_fits : common.sl_bssid_length ≤ common.bssid_len_max

-- What SimpleLink documents of an event: the name of the access point is no longer than
-- SSID_LEN_MAX, and the event has the bytes of the name and of the address.
abbrev pub Readable : Common → Event → Type 0
Readable common (wlan_event (some (sta_connected ssid_name ssid_len bssid))) =
    (ssid_len ≤ common.ssid_len_max)
    × (ssid_len ≤ length ssid_name)
    × (common.sl_bssid_length ≤ length bssid)
Readable common (wlan_event none) = Unit
Readable common (wlan_event (some (sta_disconnected reason_code))) = Unit
Readable common (wlan_event (some other_wlan_event)) = Unit
Readable common (net_app_event e) = Unit

abbrev pub AllReadable : Common → List Event → Type 0
AllReadable common [] = Unit
AllReadable common (e ∷ es) = Readable common e × AllReadable common es

-- The arrays keep their sizes, the name of the access point is a C string, and both arrays are zeroed
-- while there is no connection.
pub record Wellformed (common : Common) (g : Globals) : Type 0 where
  pub text : Bytes
  pub ssid_text : g.g_uc_connection_ssid ≡ text ++ 0 ∷ []
  pub text_length : length text ≡ common.ssid_len_max
  pub bssid_length : length g.g_uc_connection_bssid ≡ common.bssid_len_max
  pub forgotten :
      common.is_connected g.g_ul_status ≡ false
      → (g.g_uc_connection_ssid ≡ zeros (suc common.ssid_len_max))
        × (g.g_uc_connection_bssid ≡ zeros common.bssid_len_max)

zeros-text : (n : ℕ) → zeros (suc n) ≡ zeros n ++ 0 ∷ []
zeros-text zero = refl
zeros-text (suc n) = ap (λ t. 0 ∷ t) (zeros-text n)

length-zeros : (n : ℕ) → length (zeros n) ≡ n
length-zeros zero = refl
length-zeros (suc n) = ap suc (length-zeros n)

-- Where the first bytes of an array are written over a C string's, it stays one of its length.
copied-text :
    (n : ℕ) (source text : Bytes)
    → n ≤ length source
    → n ≤ length text
    → (t : Bytes) × (take n source ++ drop n (text ++ 0 ∷ []) ≡ t ++ 0 ∷ [])
      × (length t ≡ length text)
copied-text zero source text h k = (text, refl, refl)
copied-text (suc n) [] text h k = absurd (omega arith)
copied-text (suc n) (b ∷ source) [] h k = absurd (omega arith)
copied-text (suc n) (b ∷ source) (x ∷ text) h k =
    let (t, e, l) = copied-text n source text (omega arith) (omega arith) in
    (b ∷ t, ap (λ u. b ∷ u) e, ap suc l)

copied-length :
    (n : ℕ) (source target : Bytes)
    → n ≤ length source
    → n ≤ length target
    → length (take n source ++ drop n target) ≡ length target
copied-length zero source target h k = refl
copied-length (suc n) [] target h k = absurd (omega arith)
copied-length (suc n) (b ∷ source) [] h k = absurd (omega arith)
copied-length (suc n) (b ∷ source) (x ∷ target) h k =
    ap suc (copied-length n source target (omega arith) (omega arith))

copy-fits :
    (n : ℕ) (source target : Bytes)
    → n ≤ length source
    → n ≤ length target
    → copy n source target ≡ some (take n source ++ drop n target)
copy-fits n source target h k = rw (le→leb n (length source) h, le→leb n (length target) k) refl

module _ (common : Common) (bits : Bits common) where
  -- After InitializeAppVariables.
  pub initialize_app_variables-Wellformed :
      (g : Globals) → Wellformed common (initialize_app_variables common g)
  unfolding initialize_app_variables
  initialize_app_variables-Wellformed g = record {
    text = zeros common.ssid_len_max;
    ssid_text = zeros-text common.ssid_len_max;
    text_length = length-zeros common.ssid_len_max;
    bssid_length = length-zeros common.bssid_len_max;
    forgotten = λ _. (refl, refl);
  }

  connect-Wellformed :
      (ssid_name : Bytes) (ssid_len : ℕ) (bssid : Bytes) (g : Globals)
      → Readable common (wlan_event (some (sta_connected ssid_name ssid_len bssid)))
      → Wellformed common g
      → Returns
          (λ _ g'. Wellformed common g')
          (simple_link_wlan_event_handler common (some (sta_connected ssid_name ssid_len bssid)) g)
  unfolding simple_link_wlan_event_handler
  connect-Wellformed ssid_name ssid_len bssid g (fits, name, address) w =
      let (t, e, l) = copied-text ssid_len ssid_name w.text name (rw w.text_length fits) in
      rw
        (
          w.ssid_text,
          copy-fits ssid_len ssid_name (w.text ++ 0 ∷ []) name
              (omega (arith, length-append w.text (0 ∷ []), w.text_length)),
          copy-fits common.sl_bssid_length bssid g.g_uc_connection_bssid address
              (omega (arith, w.bssid_length, bits.bssid_fits)),
        )
        (record {
          text = t;
          ssid_text = e;
          text_length = l ∙ w.text_length;
          bssid_length =
              copied-length common.sl_bssid_length bssid g.g_uc_connection_bssid address
                (omega (arith, w.bssid_length, bits.bssid_fits))
              ∙ w.bssid_length;
          forgotten = λ h. absurd (true≢false (rw (bits.set_connection g.g_ul_status) at h));
        })

  disconnect-Wellformed :
      (reason : ℕ) (g : Globals)
      → Wellformed common g
      → Returns
          (λ _ g'. Wellformed common g')
          (simple_link_wlan_event_handler common (some (sta_disconnected reason)) g)
  unfolding simple_link_wlan_event_handler
  disconnect-Wellformed reason g w = record {
    text = zeros common.ssid_len_max;
    ssid_text = zeros-text common.ssid_len_max;
    text_length = length-zeros common.ssid_len_max;
    bssid_length = length-zeros common.bssid_len_max;
    forgotten = λ _. (refl, refl);
  }

  handle_event-Wellformed :
      (e : Event) (g : Globals)
      → Readable common e
      → Wellformed common g
      → Returns (λ _ g'. Wellformed common g') (handle_event common e g)
  unfolding simple_link_wlan_event_handler simple_link_net_app_event_handler
  handle_event-Wellformed (wlan_event none) g h w = w
  handle_event-Wellformed (wlan_event (some (sta_connected ssid_name ssid_len bssid))) g h w =
      connect-Wellformed ssid_name ssid_len bssid g h w
  handle_event-Wellformed (wlan_event (some (sta_disconnected reason))) g h w =
      disconnect-Wellformed reason g w
  handle_event-Wellformed (wlan_event (some other_wlan_event)) g h w = w
  handle_event-Wellformed (net_app_event none) g h w = w
  handle_event-Wellformed (net_app_event (some (ip_acquired ip gateway))) g h w = record {
    text = w.text;
    ssid_text = w.ssid_text;
    text_length = w.text_length;
    bssid_length = w.bssid_length;
    forgotten = λ off. w.forgotten (sym (bits.set_ip_keeps g.g_ul_status) ∙ off);
  }
  handle_event-Wellformed (net_app_event (some other_net_app_event)) g h w = w

  -- The handlers of readable events return, and the arrays of the access point keep their sizes, the
  -- one of the name holds a C string, and both are zeroed while there is no connection.
  pub handle_events-Wellformed :
      (es : List Event) (g : Globals)
      → AllReadable common es
      → Wellformed common g
      → Returns (λ _ g'. Wellformed common g') (handle_events common es g)
  handle_events-Wellformed [] g h w = w
  handle_events-Wellformed (e ∷ es) g h w =
      Returns-continue (λ _ g'. Wellformed common g') (λ _ g'. Wellformed common g')
        (λ _. handle_events common es) (handle_event common e g) (handle_event-Wellformed e g h.0 w)
        (λ _ g' w'. handle_events-Wellformed es g' h.1 w')
