-- ===== src/Admission/Laws.antt =====
-- What the middleware lets through.
use mathlib.Core.List.{append_assoc}
use grag.Base.{
  ℕ, ◌+◌, ◌≤◌, List, [], ◌∷◌, ◌++◌, length, length-append, ◌≡◌, refl, ◌∙◌, ◌↔◌, true, false, arith,
  ap, sym,
}
use grag.Limits.{max_request_bytes}
use grag.Admission.{Message, disconnect, request, passed, collect, handle_http}

-- The messages are body parts that all say that more follows, then one that says that none does,
-- and then the rest; their bodies together are the payload.
pub data Complete : List Message → List ℕ → List Message → Type 0 where
  last : (body : List ℕ) (rest : List Message) → Complete (request body false ∷ rest) body rest
  more :
      (body : List ℕ) {messages rest : List Message} {payload : List ℕ}
      → Complete messages payload rest
      → (whole : List ℕ) → whole ≡ body ++ payload
      → Complete (request body true ∷ messages) whole rest

collect_last :
    (start : List ℕ) (size : ℕ) (body : List ℕ) (messages : List Message) (payload : List ℕ)
    (rest : List Message)
    → collect start size (request body false ∷ messages) ≡ passed payload rest
    → (size + length body ≤ max_request_bytes) × (start ++ body ≡ payload) × (messages ≡ rest)
unfolding collect
collect_last start size body messages payload rest h = ground arith

collect_sound :
    (start : List ℕ) (size : ℕ) (messages : List Message) (payload : List ℕ) (rest : List Message)
    → size ≡ length start
    → collect start size messages ≡ passed payload rest
    → (p : List ℕ) × Complete messages p rest
      × (payload ≡ start ++ p)
      × (length payload ≤ max_request_bytes)
unfolding collect
collect_sound start size [] payload rest e h = cc
collect_sound start size (disconnect ∷ messages) payload rest e h = cc
collect_sound start size (request body false ∷ messages) payload rest e h =
    let facts = collect_last start size body messages payload rest h in
    (
      body,
      rw (← facts.2) (last body messages),
      sym facts.1,
      rw (← facts.1, length-append) (omega (arith, facts.0)),
    )
collect_sound start size (request body true ∷ messages) payload rest e h =
    let found =
      collect_sound (start ++ body) (size + length body) messages payload rest
        (omega (arith, length-append start body)) (ground arith) in
    (
      body ++ found.0,
      more body found.1 (body ++ found.0) refl,
      found.2 ∙ append_assoc start body found.0,
      found.3,
    )

collect-Complete :
    (start : List ℕ) (size : ℕ) {messages rest : List Message} {p : List ℕ}
    → size ≡ length start
    → Complete messages p rest
    → length start + length p ≤ max_request_bytes
    → collect start size messages ≡ passed (start ++ p) rest
unfolding collect
collect-Complete start size e (last body rest) low = ground arith
collect-Complete start size e (more body {payload = p} c whole w) low =
    let sizes = ap length w ∙ length-append body p in
    let later =
      collect-Complete (start ++ body) (size + length body)
        (omega (arith, length-append start body)) c
        (omega (arith, length-append start body, sizes)) in
    rw (w, ← append_assoc) (ground (arith, later, sizes))

-- The application is called with a body exactly if the client's messages bring a complete body of
-- at most `MAX_REQUEST_BYTES`; it is that body, byte for byte, and the later messages are left.
pub handle_http_iff :
    (messages : List Message) (payload : List ℕ) (rest : List Message)
    → (handle_http messages ≡ passed payload rest)
      ↔ (Complete messages payload rest × (length payload ≤ max_request_bytes))
unfolding handle_http
handle_http_iff messages payload rest = (
  λ h. let found = collect_sound [] 0 messages payload rest refl h in (rw found.2 found.1, found.3),
  λ h. collect-Complete [] 0 refl h.0 (omega (arith, h.1)),
)
