-- ===== src/Http/Status/Tests.antt =====
-- Witnesses for mux/HTTPStatus.hpp.
use mux.Prelude.{◌≡◌, refl, ◌≢◌, ◌↔◌, [], nat_eq, bytes_eq}
use mux.Prelude.Int.{pos, int_eq}
use mux.Prelude.Bytes.{codes}
use mux.Http.Status.{not_found, value, reason_phrase}
use mux.Http.Status.Laws.{IsStatus, reason_phrase_iff}

not_found-IsStatus : IsStatus (pos 404)
unfolding value
not_found-IsStatus = (not_found, refl, λ e. cc)

reason_phrase_iff_example : (reason_phrase (pos 404) ≢ []) ↔ IsStatus (pos 404)
reason_phrase_iff_example = reason_phrase_iff (pos 404)

not_found_phrase : reason_phrase (pos 404) ≡ codes "Not Found"
unfolding reason_phrase
not_found_phrase = refl
