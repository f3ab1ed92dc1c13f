-- ===== src/Handshake/ServerOrder.antt =====
-- In which order a server takes the messages of a handshake.
use picotls.Prelude.{
  ℕ, ◌≡◌, refl, ap, ◌∙◌, ◌⊎◌, inl, inr, Bool, true, false, List, [], ◌∷◌, ◌++◌, arith,
  if◌then◌else◌, All, ok,
}
use mathlib.Core.Path.{subst}
use picotls.Handshake.{
  State, server_expect_client_hello, server_expect_second_client_hello, server_expect_certificate,
  server_expect_certificate_verify, server_expect_end_of_early_data, server_expect_finished,
  server_post_handshake, Handler, server_handle_hello, server_handle_certificate,
  server_handle_certificate_verify, server_handle_end_of_early_data, server_handle_finished,
  handle_key_update, Moves, Run, done, message, server_route,
}
use picotls.Handshake.ClientOrder.{handler_is}

-- Between the last ClientHello and Finished: the end of early data, or the client's certificate.
pub data ClientAuth : List ℕ → Type 0 where
  nothing : ClientAuth []
  early_data : ClientAuth (5 ∷ [])
  certified : ClientAuth (11 ∷ 15 ∷ [])

abbrev pub IsKeyUpdate : ℕ → Type 0
IsKeyUpdate type = type ≡ 24

-- What a server that is done has taken: one ClientHello, or two.
abbrev pub ServerTranscript : List ℕ → Type 0
ServerTranscript types =
    (retried : Bool) × (auth : List ℕ) × (post : List ℕ) × ClientAuth auth
    × All IsKeyUpdate post
    × (types ≡ (if retried then 1 ∷ 1 ∷ [] else 1 ∷ []) ++ auth ++ 20 ∷ post)

-- What is left behind the last ClientHello.
abbrev Tail : List ℕ → Type 0
Tail types =
    (auth : List ℕ) × (post : List ℕ) × ClientAuth auth
    × All IsKeyUpdate post
    × (types ≡ auth ++ 20 ∷ post)

abbrev Ahead : State → List ℕ → Type 0
Ahead server_expect_client_hello types = ServerTranscript types
Ahead server_expect_second_client_hello types =
    (types' : List ℕ) × Tail types' × (types ≡ 1 ∷ types')
Ahead server_expect_end_of_early_data types =
    (post : List ℕ) × All IsKeyUpdate post × (types ≡ 5 ∷ 20 ∷ post)
Ahead server_expect_certificate types =
    (post : List ℕ) × All IsKeyUpdate post × (types ≡ 11 ∷ 15 ∷ 20 ∷ post)
Ahead server_expect_certificate_verify types =
    (post : List ℕ) × All IsKeyUpdate post × (types ≡ 15 ∷ 20 ∷ post)
Ahead server_expect_finished types = (post : List ℕ) × All IsKeyUpdate post × (types ≡ 20 ∷ post)
Ahead server_post_handshake types = All IsKeyUpdate types
Ahead _ types = Unit

-- What each state lets through.
module _ (type : ℕ) (is_end : Bool) (h : Handler) where
  pub route_hello :
      server_route server_expect_client_hello type is_end ≡ ok h
      → (type ≡ 1) × (h ≡ server_handle_hello)
  unfolding server_route
  route_hello route = ground arith

  pub route_second_hello :
      server_route server_expect_second_client_hello type is_end ≡ ok h
      → (type ≡ 1) × (h ≡ server_handle_hello)
  unfolding server_route
  route_second_hello route = ground arith

  pub route_early_data :
      server_route server_expect_end_of_early_data type is_end ≡ ok h
      → (type ≡ 5) × (h ≡ server_handle_end_of_early_data)
  unfolding server_route
  route_early_data route = ground arith

  pub route_certificate :
      server_route server_expect_certificate type is_end ≡ ok h
      → (type ≡ 11) × (h ≡ server_handle_certificate)
  unfolding server_route
  route_certificate route = ground arith

  pub route_verify :
      server_route server_expect_certificate_verify type is_end ≡ ok h
      → (type ≡ 15) × (h ≡ server_handle_certificate_verify)
  unfolding server_route
  route_verify route = ground arith

  pub route_finished :
      server_route server_expect_finished type is_end ≡ ok h
      → (type ≡ 20) × (h ≡ server_handle_finished)
  unfolding server_route
  route_finished route = ground arith

  pub route_post :
      server_route server_post_handshake type is_end ≡ ok h → (type ≡ 24) × (h ≡ handle_key_update)
  unfolding server_route
  route_post route = ground arith

rest_at : (types : List ℕ) {t u : State} → t ≡ u → Ahead t types → Ahead u types
rest_at types e rest = subst (λ s. Ahead s types) e rest

-- Where a ClientHello leads if it is not answered by a HelloRetryRequest.
abbrev Accepted : State → Type 0
Accepted t =
    (t ≡ server_expect_end_of_early_data)
    ⊎ ((t ≡ server_expect_certificate) ⊎ (t ≡ server_expect_finished))

tail : (t : State) (types : List ℕ) → Accepted t → Ahead t types → Tail types
tail t types (inl e) rest =
    let (post, p, eq) = rest_at types e rest in (5 ∷ [], post, early_data, p, eq)
tail t types (inr (inl e)) rest =
    let (post, p, eq) = rest_at types e rest in (11 ∷ 15 ∷ [], post, certified, p, eq)
tail t types (inr (inr e)) rest =
    let (post, p, eq) = rest_at types e rest in ([], post, nothing, p, eq)

extend_first :
    (psk : Bool) (t : State) (types : List ℕ)
    → Moves psk server_handle_hello server_expect_client_hello t
    → Ahead t types
    → ServerTranscript (1 ∷ types)
extend_first psk t types (inl e) rest =
    let (types', (auth, post, a, p, eq), twice) = rest_at types e.1 rest in
    (true, auth, post, a, p, ap (λ ts. 1 ∷ ts) (twice ∙ ap (λ ts. 1 ∷ ts) eq))
extend_first psk t types (inr accepted) rest =
    let (auth, post, a, p, eq) = tail t types accepted rest in
    (false, auth, post, a, p, ap (λ ts. 1 ∷ ts) eq)

extend_second :
    (psk : Bool) (t : State) (types : List ℕ)
    → Moves psk server_handle_hello server_expect_second_client_hello t
    → Ahead t types
    → Ahead server_expect_second_client_hello (1 ∷ types)
extend_second psk t types (inl e) rest = absurd (cc)
extend_second psk t types (inr accepted) rest = (types, tail t types accepted rest, refl)

-- A message taken in front of the rest.
extend :
    (psk : Bool) (s : State) (type : ℕ) (is_end : Bool) (h : Handler) (t : State) (types : List ℕ)
    → server_route s type is_end ≡ ok h
    → Moves psk h s t
    → Ahead t types
    → Ahead s (type ∷ types)
extend psk server_expect_client_hello type is_end h t types route moves rest =
    let (is, e) = route_hello type is_end h route in
    rw is (extend_first psk t types (handler_is psk server_expect_client_hello t e moves) rest)
extend psk server_expect_second_client_hello type is_end h t types route moves rest =
    let (is, e) = route_second_hello type is_end h route in
    rw is
      (extend_second psk t types (handler_is psk server_expect_second_client_hello t e moves) rest)
extend psk server_expect_end_of_early_data type is_end h t types route moves rest =
    let (is, e) = route_early_data type is_end h route in
    let (post, p, eq) =
      rest_at types (handler_is psk server_expect_end_of_early_data t e moves) rest in
    (post, p, rw is (ap (λ ts. 5 ∷ ts) eq))
extend psk server_expect_certificate type is_end h t types route moves rest =
    let (is, e) = route_certificate type is_end h route in
    let (post, p, eq) = rest_at types (handler_is psk server_expect_certificate t e moves) rest in
    (post, p, rw is (ap (λ ts. 11 ∷ ts) eq))
extend psk server_expect_certificate_verify type is_end h t types route moves rest =
    let (is, e) = route_verify type is_end h route in
    let (post, p, eq) =
      rest_at types (handler_is psk server_expect_certificate_verify t e moves) rest in
    (post, p, rw is (ap (λ ts. 15 ∷ ts) eq))
extend psk server_expect_finished type is_end h t types route moves rest =
    let (is, e) = route_finished type is_end h route in
    (types, rest_at types (handler_is psk server_expect_finished t e moves) rest, rw is refl)
extend psk server_post_handshake type is_end h t types route moves rest =
    let (is, e) = route_post type is_end h route in
    (is, rest_at types (handler_is psk server_post_handshake t e moves) rest)
extend psk _ type is_end h t types route moves rest = tt

rest_of :
    (psk : Bool) {s : State} {types : List ℕ}
    → Run psk server_route s types server_post_handshake
    → Ahead s types
rest_of psk done = tt
rest_of psk (message {s = s} {t = t} type is_end h {types = types} route moves run) =
    extend psk s type is_end h t types route moves (rest_of psk run)

-- A server that gets from its start to the end of the handshake, by whatever messages and moves of
-- its handlers, has taken one ClientHello or, after one HelloRetryRequest, two; then the end of
-- early data, or the client's certificate and its verification, or neither; then Finished; and
-- after it key updates only.
pub Run-ServerTranscript :
    (psk : Bool) (types : List ℕ)
    → Run psk server_route server_expect_client_hello types server_post_handshake
    → ServerTranscript types
Run-ServerTranscript psk types run = rest_of psk run
