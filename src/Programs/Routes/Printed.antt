-- ===== src/Programs/Routes/Printed.antt =====
-- src/http.cc: what `main` prints of its routes.
use mux.Prelude.{◌≡◌, refl, some, nat_eq, bytes_eq}
use mux.Prelude.Bytes.{codes}
use mux.Routing.App.{new_app, print_all_routes, print_from, add_handler, certificates_of}
use mux.Routing.Router.{new_router, group, get, create_new_route, returning, with_handler}
use mux.Programs.Routes.{then_get, main_store, first_routes, api_routes, printed_routes}

-- Whatever the handlers are, no call throws, and the routes are printed in the order of the calls,
-- those of the group behind its base path.
printed_routes_lem :
    {H : Type 0} (M : Type 0) (home about contact api_about api_contact : H)
    → printed_routes {M = M} (api_routes api_about api_contact (first_routes home about contact))
      ≡ some (codes "GET /\nGET /about\nGET /contact\nGET /api/v1/about\nGET /api/v1/contact\n")
unfolding printed_routes api_routes first_routes then_get main_store get group new_router
    print_all_routes print_from add_handler new_app create_new_route returning with_handler
    certificates_of
printed_routes_lem M home about contact api_about api_contact = refl
