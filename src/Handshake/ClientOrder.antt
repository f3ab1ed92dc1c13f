-- ===== src/Handshake/ClientOrder.antt =====
-- In which order a client takes the messages of a handshake.
use picotls.Prelude.{
  ℕ, suc, ◌≡◌, refl, ap, true, false, ◌⊎◌, inl, inr, Bool, List, [], ◌∷◌, ◌++◌, arith, replicate,
  All, ok,
}
use mathlib.Core.Path.{subst}
use picotls.Handshake.{
  State, client_expect_server_hello, client_expect_second_server_hello,
  client_expect_encrypted_extensions, client_expect_certificate_request_or_certificate,
  client_expect_certificate, client_expect_certificate_verify, client_expect_finished,
  client_post_handshake, Handler, client_handle_hello, client_handle_encrypted_extensions,
  client_handle_certificate_request, client_handle_certificate,
  client_handle_compressed_certificate, client_handle_certificate_verify, client_handle_finished,
  client_handle_new_session_ticket, handle_key_update, Moves, Run, done, message, client_route,
  certificate_route,
}

abbrev pub IsCertificate : ℕ → Type 0
IsCertificate type = (type ≡ 11) ⊎ (type ≡ 25)

-- The messages that authenticate the server: none in a handshake on a pre-shared key, and in no other.
pub data ServerAuth : Bool → List ℕ → Type 0 where
  resumed : ServerAuth true []
  certified : (type : ℕ) → IsCertificate type → ServerAuth false (type ∷ 15 ∷ [])
  requested : (type : ℕ) → IsCertificate type → ServerAuth false (13 ∷ type ∷ 15 ∷ [])

abbrev pub IsPostHandshake : ℕ → Type 0
IsPostHandshake type = (type ≡ 4) ⊎ (type ≡ 24)

-- What a client that is done has taken: `retries` HelloRetryRequests and a ServerHello, then
-- EncryptedExtensions, the server's authentication, Finished, and tickets and key updates.
abbrev pub ClientTranscript : Bool → List ℕ → Type 0
ClientTranscript psk types =
    (retries : ℕ) × (auth : List ℕ) × (post : List ℕ) × ServerAuth psk auth
    × All IsPostHandshake post
    × (types ≡ replicate retries 2 ++ 2 ∷ 8 ∷ auth ++ 20 ∷ post)

-- The end of it, from each state on.
abbrev Ahead : Bool → State → List ℕ → Type 0
Ahead psk client_expect_server_hello types = ClientTranscript psk types
Ahead psk client_expect_second_server_hello types = ClientTranscript psk types
Ahead psk client_expect_encrypted_extensions types =
    (auth : List ℕ) × (post : List ℕ) × ServerAuth psk auth
    × All IsPostHandshake post
    × (types ≡ 8 ∷ auth ++ 20 ∷ post)
Ahead psk client_expect_certificate_request_or_certificate types =
    (auth : List ℕ) × (post : List ℕ) × ServerAuth false auth
    × All IsPostHandshake post
    × (types ≡ auth ++ 20 ∷ post)
Ahead psk client_expect_certificate types =
    (type : ℕ) × (post : List ℕ) × IsCertificate type
    × All IsPostHandshake post
    × (types ≡ type ∷ 15 ∷ 20 ∷ post)
Ahead psk client_expect_certificate_verify types =
    (post : List ℕ) × All IsPostHandshake post × (types ≡ 15 ∷ 20 ∷ post)
Ahead psk client_expect_finished types =
    (post : List ℕ) × All IsPostHandshake post × (types ≡ 20 ∷ post)
Ahead psk client_post_handshake types = All IsPostHandshake types
Ahead psk _ types = Unit

-- What each state lets through.
module _ (type : ℕ) (is_end : Bool) (h : Handler) where
  pub route_hello :
      client_route client_expect_server_hello type is_end ≡ ok h
      → (type ≡ 2) × (h ≡ client_handle_hello)
  unfolding client_route
  route_hello route = ground arith

  pub route_second_hello :
      client_route client_expect_second_server_hello type is_end ≡ ok h
      → (type ≡ 2) × (h ≡ client_handle_hello)
  unfolding client_route
  route_second_hello route = ground arith

  pub route_extensions :
      client_route client_expect_encrypted_extensions type is_end ≡ ok h
      → (type ≡ 8) × (h ≡ client_handle_encrypted_extensions)
  unfolding client_route
  route_extensions route = ground arith

  pub route_certificate :
      certificate_route type ≡ ok h
      → ((type ≡ 11) × (h ≡ client_handle_certificate))
        ⊎ ((type ≡ 25) × (h ≡ client_handle_compressed_certificate))
  unfolding certificate_route
  route_certificate route = ground arith

  pub route_request :
      client_route client_expect_certificate_request_or_certificate type is_end ≡ ok h
      → ((type ≡ 13) × (h ≡ client_handle_certificate_request)) ⊎ (certificate_route type ≡ ok h)
  unfolding client_route
  route_request route = ground arith

  pub route_verify :
      client_route client_expect_certificate_verify type is_end ≡ ok h
      → (type ≡ 15) × (h ≡ client_handle_certificate_verify)
  unfolding client_route
  route_verify route = ground arith

  pub route_finished :
      client_route client_expect_finished type is_end ≡ ok h
      → (type ≡ 20) × (h ≡ client_handle_finished)
  unfolding client_route
  route_finished route = ground arith

  pub route_post :
      client_route client_post_handshake type is_end ≡ ok h
      → ((type ≡ 4) × (h ≡ client_handle_new_session_ticket))
        ⊎ ((type ≡ 24) × (h ≡ handle_key_update))
  unfolding client_route
  route_post route = ground arith

-- The next state, once the handler is known.
pub handler_is :
    (psk : Bool) (s t : State) {h k : Handler} → h ≡ k → Moves psk h s t → Moves psk k s t
handler_is psk s t e moves = subst (λ g. Moves psk g s t) e moves

rest_at :
    (psk : Bool) (types : List ℕ) {t u : State} → t ≡ u → Ahead psk t types → Ahead psk u types
rest_at psk types e rest = subst (λ s. Ahead psk s types) e rest

extend_hello :
    (psk : Bool) (t : State) (types : List ℕ)
    → (t ≡ client_expect_second_server_hello) ⊎ (t ≡ client_expect_encrypted_extensions)
    → Ahead psk t types
    → ClientTranscript psk (2 ∷ types)
extend_hello psk t types (inl e) rest =
    let (retries, auth, post, a, p, eq) = rest_at psk types e rest in
    (suc retries, auth, post, a, p, ap (λ ts. 2 ∷ ts) eq)
extend_hello psk t types (inr e) rest =
    let (auth, post, a, p, eq) = rest_at psk types e rest in
    (0, auth, post, a, p, ap (λ ts. 2 ∷ ts) eq)

extend_extensions :
    (psk : Bool) (t : State) (types : List ℕ)
    → Moves psk client_handle_encrypted_extensions client_expect_encrypted_extensions t
    → Ahead psk t types
    → Ahead psk client_expect_encrypted_extensions (8 ∷ types)
extend_extensions true t types e rest =
    let (post, p, eq) = rest_at true types e rest in ([], post, resumed, p, ap (λ ts. 8 ∷ ts) eq)
extend_extensions false t types e rest =
    let (auth, post, a, p, eq) = rest_at false types e rest in
    (auth, post, a, p, ap (λ ts. 8 ∷ ts) eq)

extend_certificate :
    (psk : Bool) (type : ℕ) (is_end : Bool) (h : Handler) (s t : State) (types : List ℕ)
    → certificate_route type ≡ ok h
    → Moves psk h s t
    → Ahead psk t types
    → Ahead psk client_expect_certificate (type ∷ types)
extend_certificate psk type is_end h s t types route moves rest =
    elim (route_certificate type is_end h route) [
      | inl e ↦
          let (post, p, eq) = rest_at psk types (handler_is psk s t e.1 moves) rest in
          (type, post, inl e.0, p, ap (λ ts. type ∷ ts) eq)
      | inr e ↦
          let (post, p, eq) = rest_at psk types (handler_is psk s t e.1 moves) rest in
          (type, post, inr e.0, p, ap (λ ts. type ∷ ts) eq)
    ]

extend_request :
    (psk : Bool) (type : ℕ) (is_end : Bool) (h : Handler) (t : State) (types : List ℕ)
    → client_route client_expect_certificate_request_or_certificate type is_end ≡ ok h
    → Moves psk h client_expect_certificate_request_or_certificate t
    → Ahead psk t types
    → Ahead psk client_expect_certificate_request_or_certificate (type ∷ types)
extend_request psk type is_end h t types route moves rest =
    elim (route_request type is_end h route) [
      | inl e ↦
          let (certificate, post, c, p, eq) =
            rest_at psk types
              (handler_is psk client_expect_certificate_request_or_certificate t e.1 moves) rest in
          (
            13 ∷ certificate ∷ 15 ∷ [],
            post,
            requested certificate c,
            p,
            rw e.0 (ap (λ ts. 13 ∷ ts) eq),
          )
      | inr e ↦
          let (certificate, post, c, p, eq) =
            extend_certificate psk type is_end h client_expect_certificate_request_or_certificate t
              types e moves rest in
          (certificate ∷ 15 ∷ [], post, certified certificate c, p, eq)
    ]

-- A message taken in front of the rest.
extend :
    (psk : Bool) (s : State) (type : ℕ) (is_end : Bool) (h : Handler) (t : State) (types : List ℕ)
    → client_route s type is_end ≡ ok h
    → Moves psk h s t
    → Ahead psk t types
    → Ahead psk s (type ∷ types)
extend psk client_expect_server_hello type is_end h t types route moves rest =
    let (is, e) = route_hello type is_end h route in
    rw is (extend_hello psk t types (handler_is psk client_expect_server_hello t e moves) rest)
extend psk client_expect_second_server_hello type is_end h t types route moves rest =
    let (is, e) = route_second_hello type is_end h route in
    rw is
      (extend_hello psk t types (handler_is psk client_expect_second_server_hello t e moves) rest)
extend psk client_expect_encrypted_extensions type is_end h t types route moves rest =
    let (is, e) = route_extensions type is_end h route in
    rw is (
      extend_extensions psk t types (handler_is psk client_expect_encrypted_extensions t e moves)
        rest)
extend psk client_expect_certificate_request_or_certificate type is_end h t types route moves rest =
    extend_request psk type is_end h t types route moves rest
extend psk client_expect_certificate type is_end h t types route moves rest =
    extend_certificate psk type is_end h client_expect_certificate t types
      (unfold client_route in route) moves rest
extend psk client_expect_certificate_verify type is_end h t types route moves rest =
    let (is, e) = route_verify type is_end h route in
    let (post, p, eq) =
      rest_at psk types (handler_is psk client_expect_certificate_verify t e moves) rest in
    (post, p, rw is (ap (λ ts. 15 ∷ ts) eq))
extend psk client_expect_finished type is_end h t types route moves rest =
    let (is, e) = route_finished type is_end h route in
    (types, rest_at psk types (handler_is psk client_expect_finished t e moves) rest, rw is refl)
extend psk client_post_handshake type is_end h t types route moves rest =
    elim (route_post type is_end h route) [
      | inl e ↦ (inl e.0, rest_at psk types (handler_is psk client_post_handshake t e.1 moves) rest)
      | inr e ↦ (inr e.0, rest_at psk types (handler_is psk client_post_handshake t e.1 moves) rest)
    ]
extend psk _ type is_end h t types route moves rest = tt

rest_of :
    (psk : Bool) {s : State} {types : List ℕ}
    → Run psk client_route s types client_post_handshake
    → Ahead psk s types
rest_of psk done = tt
rest_of psk (message {s = s} {t = t} type is_end h {types = types} route moves run) =
    extend psk s type is_end h t types route moves (rest_of psk run)

-- A client that gets from its first ClientHello to the end of the handshake, by whatever messages
-- and moves of its handlers, has taken them in TLS 1.3's order: ServerHello, EncryptedExtensions,
-- the server's authentication, and Finished, with tickets and key updates after it only. The
-- server's authentication is its certificate and the verification, with a request for the client's
-- in front or not, when the handshake is not on a pre-shared key, and nothing when it is. No message
-- can be left out, doubled or moved, but a HelloRetryRequest can come any number of times.
pub Run-ClientTranscript :
    (psk : Bool) (types : List ℕ)
    → Run psk client_route client_expect_server_hello types client_post_handshake
    → ClientTranscript psk types
Run-ClientTranscript psk types run = rest_of psk run
