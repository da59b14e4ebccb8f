-- ===== src/Admission/Tests.antt =====
-- A chunked body, whole and too long, and the theorem at it.
use grag.Base.{ℕ, ◌≤◌, List, [], ◌∷◌, ◌≡◌, refl, ◌↔◌, true, false, length}
use grag.Limits.{max_request_bytes}
use grag.Admission.{Message, request, disconnect, dropped, passed, collect, handle_http}
use grag.Admission.Laws.{Complete, handle_http_iff}

abbrev chunked : List Message
chunked = request (1 ∷ 2 ∷ []) true ∷ request (3 ∷ []) false ∷ disconnect ∷ []

chunked_passed : handle_http chunked ≡ passed (1 ∷ 2 ∷ 3 ∷ []) (disconnect ∷ [])
unfolding handle_http collect
chunked_passed = refl

early_disconnect : handle_http (request (1 ∷ []) true ∷ disconnect ∷ []) ≡ dropped
unfolding handle_http collect
early_disconnect = refl

handle_http_iff_example : (handle_http chunked ≡ passed (1 ∷ 2 ∷ 3 ∷ []) (disconnect ∷ [])) ↔ (
    Complete chunked (1 ∷ 2 ∷ 3 ∷ []) (disconnect ∷ [])
    × (length {A = ℕ} (1 ∷ 2 ∷ 3 ∷ []) ≤ max_request_bytes))
handle_http_iff_example = handle_http_iff chunked (1 ∷ 2 ∷ 3 ∷ []) (disconnect ∷ [])
