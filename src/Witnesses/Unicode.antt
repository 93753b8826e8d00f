-- ===== src/Witnesses/Unicode.antt =====
-- Tables for ASCII texts, and a generator of verdicts over them.
use loyiha.Base.{ℕ, ◌+◌, ◌-◌, Bool, true, false, ◌&&◌, ◌||◌, ◌==◌, leb, if◌then◌else◌, map, some}
use loyiha.Contracts.Common.{codes}
use loyiha.Vlm.Text.{Unicode}
use loyiha.Vlm.Generator.{Generator}
use loyiha.Witnesses.Data.{detector}

abbrev to_upper : ℕ → ℕ
to_upper c = if leb 97 c && leb c 122 then c - 32 else c

abbrev to_lower : ℕ → ℕ
to_lower c = if leb 65 c && leb c 90 then c + 32 else c

abbrev is_letter : ℕ → Bool
is_letter c = (leb 65 c && leb c 90) || (leb 97 c && leb c 122) || (leb 48 c && leb c 57) || c == 95

abbrev pub ascii : Unicode
ascii = record {
  nfkc = λ t. t;
  upper = map to_upper;
  lower = map to_lower;
  is_word = is_letter;
  fold = to_lower;
}

-- It has no image, and its model always gives the same two slots.
abbrev pub describer : Generator
describer = record {
  unicode = ascii;
  floats = record { percent = λ s. 50; centre = λ a b c. 0; quotient = λ a b. 0 };
  services = record {
    has_crop = λ r. false;
    has_file = λ f. false;
    generate = λ n prompt.
        some
          (codes "TAVSIF: chap tomonda uzun metall buyum\nSABAB: shakli pichoqqa juda o'xshaydi");
  };
  provenance = detector;
  describe = true;
}
