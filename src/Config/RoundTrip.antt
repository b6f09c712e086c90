-- ===== src/Config/RoundTrip.antt =====
-- A list of origins, written with commas and read again.
use realtime_game_server.Base.{
  ◌≡◌, ◌≢◌, refl, ap, ◌∙◌, true, false, not, List, [], ◌∷◌, ◌++◌, arith, All, Bool-cases, inl, inr,
  filter, map, if◌then◌else◌,
}
use realtime_game_server.Base.Text.{
  Text, codes, is_empty, same_text, trim, trim_start, trim_end, keep_end, split,
}
use realtime_game_server.Base.Text.Trim.{
  is_solid, trim_start_solid, solid_trim_start, solid_trim_end, trim_end_kept,
}
use realtime_game_server.Base.Text.Split.{split_part, split_append}
use realtime_game_server.Config.{NodeEnv, listed, parse_cors_origins}
use realtime_game_server.Config.Origins.{IsOrigin}

-- `origins.join(',')`, from the first on
abbrev pub join : Text → List Text → Text
join o [] = o
join o (p ∷ ps) = o ++ b',' ∷ join p ps

split-join : (o : Text) (os : List Text) → All IsOrigin (o ∷ os) → split b',' (join o os) ≡ o ∷ os
split-join o [] (h, _) = split_part b',' o h.no_comma
split-join o (p ∷ ps) (h, hs) =
    split_append b',' o (join p ps) h.no_comma ∙ ap (λ (l : List Text). o ∷ l) (split-join p ps hs)

trim_end_append : (a b : Text) → b ≢ [] → trim_end b ≡ b → trim_end (a ++ b) ≡ a ++ b
unfolding trim_end keep_end
trim_end_append [] b n h = h
trim_end_append (c ∷ []) [] n h = absurd (n refl)
trim_end_append (c ∷ []) (d ∷ ds) n h = rw h refl
trim_end_append (c ∷ c' ∷ cs) b n h = rw (trim_end_append (c' ∷ cs) b n h) refl

origin_solid : (o : Text) → IsOrigin o → is_solid o ≡ true
unfolding trim
origin_solid o h = rw h.trimmed at (solid_trim_end (trim_start o) (solid_trim_start o))

origin_end : (o : Text) → IsOrigin o → trim_end o ≡ o
unfolding trim
origin_end o h = rw h.trimmed at (trim_end_kept (trim_start o))

same_text_eq : (a b : Text) → same_text a b ≡ true → a ≡ b
unfolding same_text
same_text_eq [] [] h = refl
same_text_eq [] (_ ∷ _) h = absurd (ground arith)
same_text_eq (_ ∷ _) [] h = absurd (ground arith)
same_text_eq (a ∷ as') (b ∷ bs) h = ground (arith, h, same_text_eq as' bs)

same_text_apart : (a b : Text) → a ≢ b → same_text a b ≡ false
same_text_apart a b n = elim (Bool-cases (same_text a b)) [
  | inl same ↦ absurd (n (same_text_eq a b same))
  | inr apart ↦ apart
]

origins_kept_on :
    (o : Text) (kept os : List Text)
    → o ≢ []
    → kept ≡ os
    → (if not (is_empty o) then o ∷ kept else kept) ≡ o ∷ os
origins_kept_on [] kept os n h = absurd (n refl)
origins_kept_on (c ∷ cs) kept os n h = ap (λ (l : List Text). (c ∷ cs) ∷ l) h

join-ne-nil : (o : Text) (os : List Text) → IsOrigin o → join o os ≢ []
join-ne-nil o [] h = h.some_text
join-ne-nil [] (p ∷ ps) h = absurd (h.some_text refl)
join-ne-nil (c ∷ cs) (p ∷ ps) h = λ e. absurd (ground (arith, e))

join_end : (o : Text) (os : List Text) → All IsOrigin (o ∷ os) → trim_end (join o os) ≡ join o os
join_end o [] (h, _) = origin_end o h
join_end o (p ∷ ps) (h, hs) =
    let t = join p ps in
    trim_end_append o (b',' ∷ t) (λ e. absurd (ground (arith, e)))
      (trim_end_append (b',' ∷ []) t (join-ne-nil p ps hs.0) (join_end p ps hs))

solid_join : (o : Text) (os : List Text) → o ≢ [] → is_solid o ≡ true → is_solid (join o os) ≡ true
solid_join [] os n h = absurd (n refl)
solid_join (c ∷ cs) [] n h = h
solid_join (c ∷ cs) (p ∷ ps) n h = h

join_trimmed : (o : Text) (os : List Text) → All IsOrigin (o ∷ os) → trim (join o os) ≡ join o os
unfolding trim
join_trimmed o os h =
    ap trim_end (trim_start_solid (join o os) (solid_join o os h.0.some_text (origin_solid o h.0)))
    ∙ join_end o os h

origins_kept :
    (os : List Text) → All IsOrigin os → filter (λ origin. not (is_empty origin)) (map trim os) ≡ os
origins_kept [] h = refl
origins_kept (o ∷ os) (h, hs) =
    rw (h.trimmed) (origins_kept_on o _ os h.some_text (origins_kept os hs))

-- Origins that are not empty, have no white space around them and no comma in them, at least one
-- and not `*` alone, are read back from their list with commas between them.
pub parse_cors_origins-join :
    (node_env : NodeEnv) (o : Text) (os : List Text)
    → All IsOrigin (o ∷ os)
    → join o os ≢ codes "*"
    → parse_cors_origins node_env (join o os) ≡ listed (o ∷ os)
unfolding parse_cors_origins
parse_cors_origins-join node_env o os h n =
    rw
      (
        join_trimmed o os h,
        same_text_apart (join o os) (codes "*") n,
        split-join o os h,
        parse_cors_origins,
      )
      (ap listed (origins_kept (o ∷ os) h))
