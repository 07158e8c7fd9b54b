-- ===== src/Http/Response/Laws.antt =====
-- mux/Response.hpp: the state of a response under its setters.
use mux.Prelude.{◌≡◌, refl, ◌≢◌, none, some, [], ◌∷◌, if◌then◌else◌, ◌==◌, nat_eq, bytes_eq}
use mux.Prelude.Int.{ℤ, int_eq}
use mux.Prelude.Map.{find, find-insert, find-erase}
use mux.Prelude.Bytes.{Bytes, codes}
use mux.Http.Header.{HttpHeader, get_header}
use mux.Http.Header
use mux.Http.Header.Laws.{get_header-set_header, get_header-remove_header}
use mux.Http.Status.{reason_phrase}
use mux.Http.Status.Laws.{IsStatus, reason_phrase_iff}
use mux.Http.Response.{
  Response, status_phrase, add_header, remove_header, set_content_type, set_status, set_cookie,
  remove_cookie,
}

phrase_cases :
    (s : Bytes)
    → (s ≢ [] → elim s as (λ _. Bytes) [ [] ↦ codes "Unknown" | c ∷ t ↦ c ∷ t ] ≡ s)
      × (s ≡ [] → elim s as (λ _. Bytes) [ [] ↦ codes "Unknown" | c ∷ t ↦ c ∷ t ] ≡ codes "Unknown")
phrase_cases [] = (λ h. absurd (h refl), λ h. refl)
phrase_cases (c ∷ s) = (λ h. refl, λ h. cc)

-- The status line shows the phrase of a status of the enumeration, and "Unknown" for any other
-- code.
pub status_phrase_lem :
    (n : ℤ)
    → (IsStatus n → status_phrase n ≡ reason_phrase n)
      × (¬ IsStatus n → status_phrase n ≡ codes "Unknown")
status_phrase_lem n = (
  λ h. (phrase_cases (reason_phrase n)).0 ((reason_phrase_iff n).1 h),
  λ h.
      (phrase_cases (reason_phrase n)).1
        (nil_of (reason_phrase n) (λ ne. h ((reason_phrase_iff n).0 ne))),
)
  where
    nil_of : (s : Bytes) → ¬ (s ≢ []) → s ≡ []
    nil_of [] h = refl
    nil_of (c ∷ s) h = absurd (h (λ e. cc))

-- A header added to a response reads back, other headers read as before, and neither this nor a
-- removal touches the status, the body or the cookies.
pub add_header-remove_header :
    (r : Response) (name other value : Bytes)
    → ((get_header (add_header r name value).headers other).0
        ≡ (if name == other then value else (get_header r.headers other).0))
      × ((get_header (remove_header r name).headers other).0
          ≡ (if name == other then [] else (get_header r.headers other).0))
      × ((remove_header (add_header r name value) name).cookies ≡ r.cookies)
      × ((remove_header (add_header r name value) name).body ≡ r.body)
      × ((remove_header (add_header r name value) name).status_code ≡ r.status_code)
unfolding add_header remove_header
add_header-remove_header r name other value = (
  get_header-set_header r.headers name other value,
  get_header-remove_header r.headers name other,
  refl,
  refl,
  refl,
)

-- A cookie set is the one stored, a removed one is gone, other cookies stay, and the headers with
-- them.
pub cookies_lem :
    (r : Response) (name other value : Bytes)
    → (find other (set_cookie r name value).cookies
        ≡ (if name == other then some value else find other r.cookies))
      × (find other (remove_cookie r name).cookies
          ≡ (if name == other then none else find other r.cookies))
      × ((remove_cookie (set_cookie r name value) name).headers ≡ r.headers)
unfolding set_cookie remove_cookie
cookies_lem r name other value =
    (find-insert name other value r.cookies, find-erase name other r.cookies, refl)

-- The content type is the last one set, whatever it was before.
pub set_content_type_lem :
    (r : Response) (first second : Bytes) (n : ℤ)
    → (get_header
        (set_status (set_content_type (set_content_type r first) second) n).headers
        (codes "Content-Type")).0
      ≡ second
unfolding set_status set_content_type add_header
set_content_type_lem r first second n =
    get_header-set_header (Header.set_header r.headers (codes "Content-Type") first)
      (codes "Content-Type") (codes "Content-Type") second
