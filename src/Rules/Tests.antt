-- ===== src/Rules/Tests.antt =====
-- The rule matcher of src/rules.rs at concrete inputs.
use argus_ips.Address.{Bytes, bytes_eq}
use argus_ips.Base.{
  panics, gives, Given, ◌↔◌, zero, suc, ◌+◌, ap, ◌∙◌, get_elem?, mem, or_true, ℕ, min, pos, true,
  false, ◌||◌, List, [], ◌∷◌, map, none, some, length, take, ◌==◌, ◌≡◌, refl, arith,
}
use argus_ips.Rules.Address.{bytes_prefix_eq}
use argus_ips.Rules.Address.Prefix.{address_bits, bytes_prefix_eq_lem}
use argus_ips.Rules.Base64.{base64_decode}
use argus_ips.Rules.Base64.RoundTrip.{encode, base64_decode-encode}
use argus_ips.Rules.Content.{Engines, literal}
use argus_ips.Rules.Effects.Refinement.{next_bits, apply_effects_lem}
use argus_ips.Rules.Effects.{Flowbit, set, toggle, unset, apply_effects}
use argus_ips.Rules.Flowbits
use argus_ips.Rules.Flowbits.Bits.{IsSized}
use argus_ips.Rules.Flowbits.Parts.Once.{count_true, mark_all-fires}
use argus_ips.Rules.Flowbits.Parts.{mark_all, announce, mark_all_lem}
use argus_ips.Rules.Number.Bounds.{IsRead, Overflows, read_number_lem}
use argus_ips.Rules.Number.{read_number, binary, big, text}
use argus_ips.Rules.Prefilter.{Rule, build, evaluated, high}
use argus_ips.Rules.Prefilter.Complete.{Has, evaluated-Has}
use argus_ips.Rules.Search.NoCase.{position-bound, find_nocase-find_subslice}
use argus_ips.Rules.Search.{Memchr, position, find_subslice, find_nocase, to_lower}
use argus_ips.Rules.Terms.Cursor.{IsReadingIf, walk-IsReading}
use argus_ips.Rules.Terms.{Term, content, byte_jump, walk, start_reading}
use argus_ips.Rules.Transform.Normal.{transformed_all, apply_transforms_lem}
use argus_ips.Rules.Transform.{Digests, url_decode, strip_whitespace, apply_transforms}

-- 10.1.2.3 and 10.1.15.9 agree in their first 20 bits.
bytes_prefix_eq_lem_example :
    bytes_prefix_eq (10 ∷ 1 ∷ 2 ∷ 3 ∷ []) (10 ∷ 1 ∷ 15 ∷ 9 ∷ []) 20
    ≡ bytes_eq
        (take 20 (address_bits (10 ∷ 1 ∷ 2 ∷ 3 ∷ [])))
        (take 20 (address_bits (10 ∷ 1 ∷ 15 ∷ 9 ∷ [])))
bytes_prefix_eq_lem_example =
    bytes_prefix_eq_lem (10 ∷ 1 ∷ 2 ∷ 3 ∷ []) (10 ∷ 1 ∷ 15 ∷ 9 ∷ []) 20
      (omega arith, (omega arith, (omega arith, (omega arith, tt))))
      (omega arith, (omega arith, (omega arith, (omega arith, tt)))) refl (omega arith)

abbrev some_effects : List Flowbit
some_effects =
    record { op = set; bit = 3 }
    ∷ record { op = toggle; bit = 70 }
    ∷ record { op = unset; bit = 3 }
    ∷ []

apply_effects_lem_example :
    (Flowbits.is_set (apply_effects some_effects Flowbits.new 100) 70
      ≡ next_bits some_effects 70 (Flowbits.is_set Flowbits.new 70))
    × IsSized 100 (apply_effects some_effects Flowbits.new 100).words
apply_effects_lem_example =
    apply_effects_lem some_effects Flowbits.new 100 70
      (omega arith, (omega arith, (omega arith, tt))) tt

-- Two parts for each rule; rule 3 is complete with the third call.
abbrev two_parts : ℕ → ℕ
two_parts c = 2

abbrev some_calls : List (ℕ × ℕ)
some_calls = (3, 0) ∷ (1, 1) ∷ (3, 1) ∷ (3, 0) ∷ []

mark_all_lem_example :
    mark_all two_parts 5 Flowbits.new some_calls ≡ some (announce two_parts [] some_calls)
mark_all_lem_example =
    mark_all_lem two_parts 5 some_calls (λ c. (omega arith, omega arith))
      (
        omega arith,
        omega arith,
        (omega arith, omega arith, (omega arith, omega arith, (omega arith, omega arith, tt))),
      )

mark_all-fires_example : count_true 3 some_calls (false ∷ false ∷ true ∷ false ∷ []) ≡ 1
mark_all-fires_example =
    mark_all-fires two_parts 5 some_calls (false ∷ false ∷ true ∷ false ∷ []) 3
      (λ c. (omega arith, omega arith))
      (
        omega arith,
        omega arith,
        (omega arith, omega arith, (omega arith, omega arith, (omega arith, omega arith, tt))),
      )
      refl refl

abbrev first_of : Memchr
first_of = record {
  memchr = λ b w. position (λ x. x == b) w 0;
  memchr2 = λ a b w. position (λ x. x == a || x == b) w 0;
}

-- `ab` in `xaABz`.
find_nocase-find_subslice_example :
    find_nocase first_of (120 ∷ 97 ∷ 65 ∷ 66 ∷ 122 ∷ []) (97 ∷ 98 ∷ [])
    ≡ find_subslice (map to_lower (120 ∷ 97 ∷ 65 ∷ 66 ∷ 122 ∷ [])) (97 ∷ 98 ∷ [])
find_nocase-find_subslice_example =
    find_nocase-find_subslice first_of (λ b w. refl) (λ a b w. refl) (120 ∷ 97 ∷ 65 ∷ 66 ∷ 122 ∷ [])
      (97 ∷ 98 ∷ []) refl

base64_decode-encode_example :
    base64_decode (encode (77 ∷ 255 ∷ 0 ∷ 110 ∷ [])) ≡ 77 ∷ 255 ∷ 0 ∷ 110 ∷ []
base64_decode-encode_example =
    base64_decode-encode (77 ∷ 255 ∷ 0 ∷ 110 ∷ [])
      (omega arith, (omega arith, (omega arith, (omega arith, tt))))

abbrev same_bytes : Digests
same_bytes = record { sha1_of = λ b. b; md5_of = λ b. b; sha256_of = λ b. b }

-- `a%20+b`
apply_transforms_lem_example :
    apply_transforms same_bytes
      (url_decode ∷ strip_whitespace ∷ [])
      (97 ∷ 37 ∷ 50 ∷ 48 ∷ 43 ∷ 98 ∷ [])
    ≡ transformed_all same_bytes
        (url_decode ∷ strip_whitespace ∷ [])
        (97 ∷ 37 ∷ 50 ∷ 48 ∷ 43 ∷ 98 ∷ [])
apply_transforms_lem_example =
    apply_transforms_lem same_bytes (url_decode ∷ strip_whitespace ∷ [])
      (97 ∷ 37 ∷ 50 ∷ 48 ∷ 43 ∷ 98 ∷ [])

-- A count of bytes that overflows behind the first byte of `42`.
read_number_lem_example :
    Given
      (IsRead 1 (min (1 + 18_446_744_073_709_551_615) 2))
      (read_number (text 10) (52 ∷ 50 ∷ []) 1 18_446_744_073_709_551_615)
    × ((read_number (text 10) (52 ∷ 50 ∷ []) 1 18_446_744_073_709_551_615 ≡ panics)
        ↔ Overflows (text 10) 2 1 18_446_744_073_709_551_615)
read_number_lem_example =
    read_number_lem (text 10) (52 ∷ 50 ∷ []) 1 18_446_744_073_709_551_615
      (omega arith, (omega arith, tt)) (omega arith) (omega arith)

-- The text `42x`, and four bytes of which three are there.
text_read : read_number (text 10) (52 ∷ 50 ∷ 120 ∷ []) 0 4 ≡ gives (42, 2)
text_read = refl

text_panics : read_number (text 10) (52 ∷ 50 ∷ []) 1 18_446_744_073_709_551_615 ≡ panics
text_panics = refl

-- Engines whose expressions match nothing but the empty text.
abbrev empty_matches : Engines
empty_matches = record {
  Regex = ℕ;
  Fancy = ℕ;
  chars = first_of;
  find = λ re w. some (0, 0);
  find_at = λ re w at. some (min at (length w), min at (length w));
  find_from_pos = λ re w at. some (some (min at (length w), min at (length w)));
}

-- `content:"b"`, and a jump over the length that follows it.
abbrev two_terms : List (Term empty_matches)
two_terms =
    content record {
      pattern = literal (98 ∷ []);
      negate = false;
      offset = 0;
      depth = none;
      distance = none;
      within = none;
      resume = false;
      var_offset = none;
      var_depth = none;
      var_distance = none;
      var_within = none;
    }
    ∷ byte_jump record {
      bytes = 1;
      offset = pos 0;
      relative = true;
      format = binary big;
      multiplier = 1;
      align = false;
      post_offset = pos 0;
      from_beginning = false;
    }
    ∷ []

walk-IsReading_example :
    IsReadingIf
      (walk empty_matches two_terms (start_reading empty_matches (97 ∷ 98 ∷ 1 ∷ 99 ∷ 100 ∷ [])))
walk-IsReading_example =
    walk-IsReading empty_matches (λ b w d e. omega (arith, position-bound (λ x. x == b) w 0 d e))
      (λ a b w d e. omega (arith, position-bound (λ x. x == a || x == b) w 0 d e))
      (λ re w. omega arith) (λ re w at. omega arith) (λ re w at. omega arith) two_terms
      (97 ∷ 98 ∷ 1 ∷ 99 ∷ 100 ∷ [])

-- An automaton that reports every pattern.
abbrev ids_from : ℕ → List Bytes → List ℕ
ids_from k [] = []
ids_from k (p ∷ ps) = k ∷ ids_from (k + 1) ps

ids_from-mem :
    (ps : List Bytes) (k i : ℕ) (lit : Bytes)
    → get_elem? ps i ≡ some lit
    → mem (k + i) (ids_from k ps) ≡ true
ids_from-mem [] k i lit h = absurd (cc)
ids_from-mem (p ∷ ps) k zero lit h = ground arith
ids_from-mem (p ∷ ps) k (suc i) lit h =
    let e : k + suc i ≡ k + 1 + i = omega arith in
    ap (λ j. mem j (ids_from k (p ∷ ps))) e
    ∙ ap (◌||◌ (k == k + 1 + i)) (ids_from-mem ps (k + 1) i lit h)
    ∙ or_true (k == k + 1 + i)

plus_left : (n : ℕ) → n ≡ 0 + n
plus_left n = omega arith

abbrev one_rule : Rule empty_matches
one_rule = record {
  sid = 1;
  name = "b and a length";
  severity = high;
  header = record {
    extra = none;
    proto = none;
    src_ip = none;
    dst_ip = none;
    src_port = none;
    dst_port = none;
    payload_len = none;
  };
  terms = two_terms;
  flowbits = [];
  noalert = false;
  part = none;
  xbits = [];
}

evaluated-Has_example :
    Has
      (evaluated empty_matches
        (λ ps bs. ids_from 0 ps)
        (build empty_matches (one_rule ∷ []))
        (97 ∷ 98 ∷ 1 ∷ 99 ∷ 100 ∷ [])
        record { candidates = []; seen = []; generation = 0 })
      one_rule
evaluated-Has_example =
    evaluated-Has empty_matches (λ b w d e. omega (arith, position-bound (λ x. x == b) w 0 d e))
      (λ a b w d e. omega (arith, position-bound (λ x. x == a || x == b) w 0 d e))
      (λ ps bs. ids_from 0 ps)
      (λ ps bs i lit h o. ap (λ j. mem j (ids_from 0 ps)) (plus_left i) ∙ ids_from-mem ps 0 i lit h)
      (one_rule ∷ []) one_rule 0 (97 ∷ 98 ∷ 1 ∷ 99 ∷ 100 ∷ [])
      record { candidates = []; seen = []; generation = 0 } (λ i. omega arith) refl refl
