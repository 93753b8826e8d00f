-- ===== src/Witnesses/Vlm.antt =====
-- Texts that the guard sees, answers of the model that are voted on, and verdicts on the knife.
use loyiha.Base.{◌≡◌, refl, ◌↔◌, true, [], ◌∷◌, length}
use loyiha.Contracts.Common.{Text, codes, clear}
use loyiha.Vlm.Text.{strip, lines, runs}
use loyiha.Vlm.Pattern.{search, match_then}
use loyiha.Vlm.Guard.{
  check, tests_of, has_latin, has_cyrillic, has_mixed_script, russian_found, english_matches,
  forbidden_found, is_stopword, first_violation,
}
use loyiha.Vlm.Guard.Phrases.{forbidden_phrases}
use loyiha.Vlm.Guard.Clean.{IsClean, check_iff}
use loyiha.Vlm.Screen.Texts.{
  serious, parse, read_line, read_lines, at_colon, get, get_or_empty, longest, longest_first,
  vote_text, votes, choose_summary, text_clean, tripped, judged,
}
use loyiha.Vlm.Screen.{
  aggregate, conclude, vote_flag, flag_in, normalize_flag, risk_from_flags, is_missing, any_missing,
}
use loyiha.Vlm.Screen.Vote.{IsVotedClear, aggregate-clear}
use loyiha.Datalayer.Quality.{is_space, is_blank}
use loyiha.Witnesses.Unicode.{ascii}

abbrev answer : Text
answer =
    codes
      "TAVSIF: ochiq vagon, ichida ruda uyumi\nVAGON_TURI: gondola vagon\nASOSIY_YUK: temir ruda uyumi\nQORADORI: YO'Q\nQUROL: yo'q\nTAMAKI: YO'Q\nBOSHQA: YO'Q\nXAVF: PAST"

answers-clear : (aggregate ascii (answer ∷ answer ∷ []) "a.png").risk_band ≡ clear
unfolding aggregate conclude vote_flag flag_in normalize_flag risk_from_flags is_missing any_missing
    serious parse read_line read_lines at_colon get get_or_empty longest longest_first vote_text
    votes choose_summary text_clean tripped judged check tests_of has_cyrillic has_mixed_script
    russian_found english_matches forbidden_found is_stopword first_violation forbidden_phrases
    search match_then strip lines runs is_space is_blank has_latin
answers-clear = refl

aggregate-clear_example :
    IsVotedClear ascii (answer ∷ answer ∷ []) (aggregate ascii (answer ∷ answer ∷ []) "a.png")
aggregate-clear_example = aggregate-clear ascii (answer ∷ answer ∷ []) "a.png" answers-clear

check_iff_example :
    ((check ascii (codes "bu vagon xavfsizdir")).passed ≡ true)
    ↔ IsClean ascii (strip (ascii.nfkc (codes "bu vagon xavfsizdir")))
check_iff_example = check_iff ascii (codes "bu vagon xavfsizdir")

short : length (strip (codes "xavfsiz")) ≡ 7
unfolding strip is_space
short = refl
