-- ===== src/Vlm/Guard/Words.antt =====
-- vlm/guard.py: the stopwords that give Russian and English away.
use loyiha.Base.{List, [], ◌∷◌, map}
use loyiha.Contracts.Common.{Text, codes}

abbrev pub russian_stopwords : List Text
russian_stopwords = map codes (
    "eto" ∷ "eti" ∷ "eta" ∷ "etot" ∷ "etikh" ∷ "etom" ∷ "etogo" ∷ "etu" ∷ "ne" ∷ "net" ∷ "ili"
    ∷ "zhe" ∷ "by" ∷ "kak" ∷ "zdes" ∷ "tut" ∷ "tam" ∷ "gde" ∷ "kogda" ∷ "potomu" ∷ "mozhno"
    ∷ "nelzya" ∷ "nuzhno" ∷ "dolzhen" ∷ "nado" ∷ "ochen" ∷ "vse" ∷ "vsye" ∷ "vsego" ∷ "vsekh"
    ∷ "nichego" ∷ "chto" ∷ "chtoby" ∷ "kotoryy" ∷ "kotoraya" ∷ "yavlyaetsya" ∷ "imeetsya" ∷ "vidno"
    ∷ "viden" ∷ "vidna" ∷ "predmet" ∷ "obekt" ∷ "opasnost" ∷ "opasno" ∷ "opasnyy" ∷ "oruzhie"
    ∷ "veshchestvo" ∷ "izobrazhenie" ∷ "dosmotr" ∷ [])

abbrev pub english_stopwords : List Text
english_stopwords = map codes (
    "the" ∷ "this" ∷ "that" ∷ "is" ∷ "are" ∷ "was" ∷ "were" ∷ "it" ∷ "an" ∷ "and" ∷ "or" ∷ "not"
    ∷ "no" ∷ "detected" ∷ "found" ∷ "object" ∷ "item" ∷ "suspicious" ∷ "region" ∷ "area" ∷ "image"
    ∷ [])
