-- ===== src/Programs/Matcher/Routes.antt =====
-- src/dynamic.cc: the matcher against a route that is compared segment by segment.
use mux.Prelude.{
  ◌≡◌, refl, ap, ◌∙◌, inl, inr, Bool, true, false, Option, none, some, List, [], ◌∷◌, map, arith,
  if◌then◌else◌, Bool-cases, All, nat_eq, bytes_eq, bytes_beq,
}
use mux.Prelude.Int.{int_eq}
use mux.Prelude.Map.{Map, insert}
use mux.Prelude.Bytes.{Bytes, Lacks}
use mux.Programs.Matcher.{
  slash, Item, is_operator, is_plain, catch, regex_match, opens, param_name, first_group,
  later_groups, bind_params, bound_by, match_url,
}
use mux.Programs.Matcher.Regex.{fixed-match, group-match, group_end}
use mux.Programs.Matcher.Segments.{
  Segment, fixed, param, text, template, path, IsSegment, items_of, items_of-AtSlash, path-IsCut,
  scan-template, is_plain-items_of, text-Lacks, split-template, param_name-text,
}

-- What a route with these segments makes of a URL with those: fixed segments must be equal, and a
-- placeholder takes any segment that is not empty.
pub route : List Segment → List Bytes → Map Bytes Bytes → Option (Map Bytes Bytes)
route [] [] params = some params
route [] (u ∷ us) params = none
route (p ∷ ps) [] params = none
route (fixed s ∷ ps) (u ∷ us) params =
    let rest = route ps us params in if bytes_beq s u then rest else none
route (param name ∷ ps) ([] ∷ us) params = none
route (param name ∷ ps) ((c ∷ u) ∷ us) params = route ps us (insert name (c ∷ u) params)

-- The segments that the placeholders take.
caught_by : List Segment → List Bytes → Option (List Bytes)
caught_by [] [] = some []
caught_by [] (u ∷ us) = none
caught_by (p ∷ ps) [] = none
caught_by (fixed s ∷ ps) (u ∷ us) =
    let rest = caught_by ps us in if bytes_beq s u then rest else none
caught_by (param name ∷ ps) ([] ∷ us) = none
caught_by (param name ∷ ps) ((c ∷ u) ∷ us) = catch (c ∷ u) (caught_by ps us)

regex_match-caught_by :
    (ps : List Segment) (us : List Bytes)
    → All IsSegment ps
    → All (Lacks slash) us
    → regex_match (items_of ps) (path us) ≡ caught_by ps us
unfolding regex_match caught_by
regex_match-caught_by [] [] h l = refl
regex_match-caught_by [] (u ∷ us) h l = refl
regex_match-caught_by (fixed s ∷ ps) [] h l = refl
regex_match-caught_by (param name ∷ ps) [] h l = refl
regex_match-caught_by (fixed s ∷ ps) (u ∷ us) h l =
    fixed-match (items_of ps) (path us) (items_of-AtSlash ps) (path-IsCut us) s u
      (text-Lacks (fixed s) h.0) l.0
    ∙ ap (λ x. if bytes_beq s u then x else none) (regex_match-caught_by ps us h.1 l.1)
regex_match-caught_by (param name ∷ ps) ([] ∷ us) h l =
    group_end (items_of ps) (path us) (items_of-AtSlash ps) (path-IsCut us)
regex_match-caught_by (param name ∷ ps) ((c ∷ u) ∷ us) h l =
    group-match (items_of ps) (path us) (items_of-AtSlash ps) (path-IsCut us) c u l.0
    ∙ ap (catch (c ∷ u)) (regex_match-caught_by ps us h.1 l.1)

-- What a match makes of the groups.
bound_groups : List Segment → Option (List Bytes) → Map Bytes Bytes → Option (Map Bytes Bytes)
bound_groups ps none params = none
bound_groups ps (some caught) params = some (bind_params (map text ps) caught params)

opens-fixed : (s : Bytes) → IsSegment (fixed s) → opens s ≡ false
unfolding opens is_operator
opens-fixed [] h = refl
opens-fixed (c ∷ s) h = ground arith

bound_groups-fixed :
    (s : Bytes) (ps : List Segment) (o : Option (List Bytes)) (params : Map Bytes Bytes)
    → IsSegment (fixed s)
    → bound_groups (fixed s ∷ ps) o params ≡ bound_groups ps o params
unfolding bound_groups bind_params
bound_groups-fixed s ps none params h = refl
bound_groups-fixed s ps (some caught) params h =
    ap
      (λ b. some (
        bind_params (map text ps) (if b then later_groups caught else caught)
          (if b then insert (param_name s) (first_group caught) params else params)))
      (opens-fixed s h)

bound_groups-param :
    (name : Bytes) (ps : List Segment) (u : Bytes) (o : Option (List Bytes))
    (params : Map Bytes Bytes)
    → bound_groups (param name ∷ ps) (catch u o) params ≡ bound_groups ps o (insert name u params)
unfolding bound_groups bind_params catch opens first_group later_groups
bound_groups-param name ps u none params = refl
bound_groups-param name ps u (some caught) params =
    ap (λ n. some (bind_params (map text ps) caught (insert n u params))) (param_name-text name)

bound_groups-caught_by :
    (ps : List Segment) (us : List Bytes) (params : Map Bytes Bytes)
    → All IsSegment ps
    → bound_groups ps (caught_by ps us) params ≡ route ps us params
unfolding caught_by route
bound_groups-caught_by [] [] params h = unfold bound_groups bind_params in refl
bound_groups-caught_by [] (u ∷ us) params h = unfold bound_groups in refl
bound_groups-caught_by (fixed s ∷ ps) [] params h = unfold bound_groups in refl
bound_groups-caught_by (param name ∷ ps) [] params h = unfold bound_groups in refl
bound_groups-caught_by (fixed s ∷ ps) (u ∷ us) params h = elim (Bool-cases (bytes_beq s u)) [
  | inl e ↦ rw e (
      bound_groups-fixed s ps (caught_by ps us) params h.0
      ∙ bound_groups-caught_by ps us params h.1)
  | inr e ↦ rw e (unfold bound_groups in refl)
]
bound_groups-caught_by (param name ∷ ps) ([] ∷ us) params h = unfold bound_groups in refl
bound_groups-caught_by (param name ∷ ps) ((c ∷ u) ∷ us) params h =
    bound_groups-param name ps (c ∷ u) (caught_by ps us) params
    ∙ bound_groups-caught_by ps us (insert name (c ∷ u) params) h.1

abbrev pub outcome : Map Bytes Bytes → Option (Map Bytes Bytes) → Bool × Map Bytes Bytes
outcome params none = (false, params)
outcome params (some bindings) = (true, bindings)

bound_by-outcome :
    (p : Segment) (ps : List Segment) (o : Option (List Bytes)) (params : Map Bytes Bytes)
    → All IsSegment (p ∷ ps)
    → bound_by (template (p ∷ ps)) o params ≡ outcome params (bound_groups (p ∷ ps) o params)
unfolding bound_by bound_groups
bound_by-outcome p ps none params h = refl
bound_by-outcome p ps (some caught) params h =
    rw (split-template p ps h) (unfold bind_params opens in refl)

-- A template that is made of segments, each fixed text or a whole placeholder, matches a URL
-- exactly as a comparison segment by segment does: they have equally many, the fixed ones are
-- equal, and a placeholder stands at a segment that is not empty. The parameters are then bound to
-- those segments, in their order; without a match they are left alone. No fixed text holds a slash
-- or an operator of regular expressions, no name a slash or a closing brace, and none is empty.
pub match_url-route :
    (p : Segment) (ps : List Segment) (us : List Bytes) (params : Map Bytes Bytes)
    → All IsSegment (p ∷ ps)
    → All (Lacks slash) us
    → match_url (template (p ∷ ps)) (path us) params
      ≡ some (outcome params (route (p ∷ ps) us params))
unfolding match_url
match_url-route p ps us params h l =
    let whole = template (p ∷ ps) in
    let run = λ (items : List Item). some (bound_by whole (regex_match items (path us)) params) in
    ap (λ items. if is_plain items then run items else none) (scan-template (p ∷ ps) h)
    ∙ ap (λ b. if b then run (items_of (p ∷ ps)) else none) (is_plain-items_of (p ∷ ps) h)
    ∙ ap some (
        ap (λ o. bound_by whole o params) (regex_match-caught_by (p ∷ ps) us h l)
        ∙ bound_by-outcome p ps (caught_by (p ∷ ps) us) params h
        ∙ ap (outcome params) (bound_groups-caught_by (p ∷ ps) us params h))
