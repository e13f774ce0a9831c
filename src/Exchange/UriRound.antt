-- ===== src/Exchange/UriRound.antt =====
-- That the URIs of client/src/orchestration/ContactExchange.ts and client/src/devices/DeviceLinkManager.ts
-- read back.
use tor_e2ee_messenger.Common.{
  ℕ, zero, suc, ◌+◌, ◌%◌, ◌≤◌, ◌≡◌, refl, ap, ap₂, sym, ◌∙◌, Bool, true, false, some, [], ◌∷◌, ◌++◌,
  Text, Bytes, All, codes, length, length-append, append_assoc, append-nil, take-append,
  text_eq_refl, truthy, nat_eq, map, arith,
}
use tor_e2ee_messenger.Common.Result.{ok}
use tor_e2ee_messenger.Platform.{Platform, IsPlatform}
use tor_e2ee_messenger.Exchange.{
  SearchParam, JsonOf, IsRuntime, IsBase64, is_base64, is_url_safe, pads,
}
use tor_e2ee_messenger.Exchange.Uri.{
  is_space, drop_start, drop_end, trim, after_question, to_url_unit, from_url_unit, is_pad,
  url_safe, pad, standard_base64, export_uri, query_data, read_data, read_payload_of,
}

drop_end-none : (test : ℕ → Bool) (s : Text) → All (λ c. test c ≡ false) s → drop_end test s ≡ s
unfolding drop_end
drop_end-none test [] h = refl
drop_end-none test (c ∷ s) (first, rest) = rw first (ap (λ t. c ∷ t) (drop_end-none test s rest))

drop_end-pads : (n : ℕ) → drop_end is_pad (pads n) ≡ []
unfolding drop_end
drop_end-pads zero = refl
drop_end-pads (suc n) = rw (drop_end-pads n) refl

drop_end-append_pads :
    (s : Text) (n : ℕ) → All (λ c. is_pad c ≡ false) s → drop_end is_pad (s ++ pads n) ≡ s
unfolding drop_end
drop_end-append_pads [] n h = drop_end-pads n
drop_end-append_pads (c ∷ s) n (first, rest) =
    rw first (ap (λ t. c ∷ t) (drop_end-append_pads s n rest))

map-append : (f : ℕ → ℕ) (s t : Text) → map f (s ++ t) ≡ map f s ++ map f t
map-append f [] t = refl
map-append f (c ∷ s) t = ap (λ u. f c ∷ u) (map-append f s t)

map-pads : (n : ℕ) → map to_url_unit (pads n) ≡ pads n
map-pads zero = refl
map-pads (suc n) = ap (λ t. 61 ∷ t) (map-pads n)

unit_round : (c : ℕ) → is_base64 c ≡ true → from_url_unit (to_url_unit c) ≡ c
unit_round c h = ground arith

map-round : (s : Text) → All (λ c. is_base64 c ≡ true) s → map from_url_unit (map to_url_unit s) ≡ s
map-round [] h = refl
map-round (c ∷ s) (first, rest) = ap₂ (λ d t. d ∷ t) (unit_round c first) (map-round s rest)

unit_not_pad : (c : ℕ) → is_base64 c ≡ true → is_pad (to_url_unit c) ≡ false
unit_not_pad c h = ground arith

units_not_pad :
    (s : Text) → All (λ c. is_base64 c ≡ true) s → All (λ c. is_pad c ≡ false) (map to_url_unit s)
units_not_pad [] h = tt
units_not_pad (c ∷ s) (first, rest) = (unit_not_pad c first, units_not_pad s rest)

unit_safe : (c : ℕ) → is_base64 c ≡ true → is_url_safe (to_url_unit c) ≡ true
unit_safe c h = ground arith

units_safe :
    (s : Text)
    → All (λ c. is_base64 c ≡ true) s
    → All (λ c. is_url_safe c ≡ true) (map to_url_unit s)
units_safe [] h = tt
units_safe (c ∷ s) (first, rest) = (unit_safe c first, units_safe s rest)

length-pads : (n : ℕ) → length (pads n) ≡ n
length-pads zero = refl
length-pads (suc n) = ap suc (length-pads n)

full : (l n : ℕ) → (l + n) % 4 ≡ 0 → n ≡ 0 → nat_eq (l % 4) 0 ≡ true
full l n h z = ground arith

not_full : (l n : ℕ) → (l + suc n) % 4 ≡ 0 → suc n ≤ 3 → nat_eq (l % 4) 0 ≡ false
not_full l n h three = ground arith

-- The rounds that pad add what is missing.
pad_fills :
    (rounds n : ℕ) (t : Text)
    → n ≤ rounds
    → n ≤ 3
    → (length t + n) % 4 ≡ 0
    → pad rounds t ≡ t ++ pads n
unfolding pad
pad_fills zero zero t le three h = sym (append-nil t)
pad_fills zero (suc n) t le three h = absurd (omega arith)
pad_fills (suc rounds) zero t le three h = rw (full (length t) 0 h refl) (sym (append-nil t))
pad_fills (suc rounds) (suc n) t le three h =
    let grown : (length (t ++ 61 ∷ []) + n) % 4 ≡ 0 = omega (arith, length-append t (61 ∷ [])) in
    rw (not_full (length t) n h three) (
      pad_fills rounds n (t ++ 61 ∷ []) (omega arith) (omega arith) grown
      ∙ append_assoc t (61 ∷ []) (pads n))

length-map : (f : ℕ → ℕ) (s : Text) → length (map f s) ≡ length s
length-map f [] = refl
length-map f (c ∷ s) = ap suc (length-map f s)

truthy-some : (s : Text) → 1 ≤ length s → truthy (some s) ≡ some s
truthy-some [] h = absurd (omega arith)
truthy-some (c ∷ s) h = refl

module _ (p : Platform) (b : Bytes) (shape : IsBase64 p b) where
  safe : url_safe (p.to_base64 b) ≡ map to_url_unit shape.body
  unfolding url_safe
  safe = rw shape.split (
      rw (map-append to_url_unit shape.body (pads shape.padding)) (
        rw (map-pads shape.padding) (
          drop_end-append_pads (map to_url_unit shape.body) shape.padding
            (units_not_pad shape.body shape.units))))

  restored : standard_base64 (url_safe (p.to_base64 b)) ≡ p.to_base64 b
  unfolding standard_base64
  restored =
      let whole : length (p.to_base64 b) ≡ length shape.body + shape.padding =
        ap length shape.split
        ∙ length-append shape.body (pads shape.padding)
        ∙ ap (λ n. length shape.body + n) (length-pads shape.padding) in
      rw safe (
        rw (map-round shape.body shape.units) (
          pad_fills 3 shape.padding shape.body (omega (arith, shape.few)) (omega (arith, shape.few))
            (omega (arith, shape.total))
          ∙ sym shape.split))

  units_url : All (λ c. is_url_safe c ≡ true) (url_safe (p.to_base64 b))
  units_url = rw safe (units_safe shape.body shape.units)

  some_data : truthy (some (url_safe (p.to_base64 b))) ≡ some (url_safe (p.to_base64 b))
  some_data =
      let kept : length (url_safe (p.to_base64 b)) ≡ length shape.body =
        ap length safe ∙ length-map to_url_unit shape.body in
      truthy-some (url_safe (p.to_base64 b)) (omega (arith, shape.there))

not_space : (c : ℕ) → is_url_safe c ≡ true → is_space c ≡ false
not_space c h = ground arith

not_spaces : (s : Text) → All (λ c. is_url_safe c ≡ true) s → All (λ c. is_space c ≡ false) s
not_spaces [] h = tt
not_spaces (c ∷ s) (first, rest) = (not_space c first, not_spaces s rest)

drop_start-none : (s : Text) → All (λ c. is_space c ≡ false) s → drop_start is_space s ≡ s
unfolding drop_start
drop_start-none [] h = refl
drop_start-none (c ∷ s) (first, rest) = rw first refl

trim-none : (s : Text) → All (λ c. is_space c ≡ false) s → trim s ≡ s
unfolding trim
trim-none s h = rw (drop_start-none s h) (drop_end-none is_space s h)

All-append : (P : ℕ → Type 0) (s t : Text) → All P s → All P t → All P (s ++ t)
All-append P [] t h k = k
All-append P (c ∷ s) t (first, rest) k = (first, All-append P s t rest k)

-- A scheme: no white space, no `?`.
abbrev pub IsScheme : Text → Type 0
IsScheme scheme = All (λ c. (is_space c ≡ false) × (nat_eq c 63 ≡ false)) scheme

scheme_visible : (s : Text) → IsScheme s → All (λ c. is_space c ≡ false) s
scheme_visible [] h = tt
scheme_visible (c ∷ s) (first, rest) = (first.0, scheme_visible s rest)

after_scheme : (s t : Text) → IsScheme s → after_question (s ++ 63 ∷ t) ≡ some t
unfolding after_question
after_scheme [] t h = refl
after_scheme (c ∷ s) t (first, rest) = rw first.1 (after_scheme s t rest)

module _ (p : Platform) (laws : IsPlatform p) (search : SearchParam) {A : Type 0} (json : JsonOf A)
    (a : A) (runtime : IsRuntime p search json a) where
  -- What is exported under a scheme reads back under it.
  pub read_payload_of-export_uri :
      (scheme : Text)
      → IsScheme scheme
      → read_payload_of p search json scheme (export_uri p json scheme a) ≡ ok a
  unfolding read_payload_of export_uri read_data query_data
  read_payload_of-export_uri scheme h =
      let bytes = p.utf8_encode (json.write a) in
      let shape = runtime.base64 in
      let text = url_safe (p.to_base64 bytes) in
      let safe_text = units_url p bytes shape in
      let visible =
        All-append (λ c. is_space c ≡ false) scheme (codes "?v=1&d=" ++ text)
          (scheme_visible scheme h)
          (refl, (refl, (refl, (refl, (refl, (refl, (refl, not_spaces text safe_text))))))) in
      rw (trim-none (scheme ++ (codes "?v=1&d=" ++ text)) visible) (
        rw (take-append scheme (codes "?v=1&d=" ++ text)) (
          rw (text_eq_refl scheme) (
            rw (after_scheme scheme (codes "v=1&d=" ++ text) h) (
              rw (runtime.query text safe_text) (
                rw (some_data p bytes shape) (
                  rw (restored p bytes shape) (
                    rw (laws.base64_round bytes)
                      (rw (runtime.text.json_utf8) (rw (runtime.text.json_round) refl)))))))))
