-- ===== src/Reflection/Versions.antt =====
-- The negotiation of the version over a sequence of requests.
use grpcurl_rs.Base.{List, [], ◌∷◌, Bool, true, false, ◌≡◌, ◌≢◌, refl}
use grpcurl_rs.Error.{Result, done, fail}
use grpcurl_rs.Reflection.{
  MessageRequest, MessageResponse, Server, Version, unknown, v1, v1alpha, is_unimplemented,
  reflect_v1, reflect_v1alpha, reflect, settle, settle_alpha,
}

-- The results of a sequence of requests, each from the state that the last one left.
abbrev pub answers :
    {State : Type 0}
    → (State → MessageRequest → Result MessageResponse × State)
    → State
    → List MessageRequest
    → List (Result MessageResponse)
answers ask s [] = []
answers ask s (request ∷ rest) = (ask s request).0 ∷ answers ask (ask s request).1 rest

abbrev pub refuses : Result MessageResponse → Bool
refuses (done response) = false
refuses (fail e) = is_unimplemented e

module _ {World : Type 0} (server : Server World) where
  -- A request with a version that may stand for v1 goes as one of v1 does.
  reflect_as_v1 :
      (version : Version) (w : World) (request : MessageRequest)
      → version ≢ v1alpha
      → refuses (reflect_v1 server w request).0 ≡ false
      → ((reflect server (version, w) request).0 ≡ (reflect_v1 server w request).0)
        × ((reflect server (version, w) request).1.1 ≡ (reflect_v1 server w request).1)
        × ((reflect server (version, w) request).1.0 ≢ v1alpha)
  unfolding reflect
  reflect_as_v1 v1 w request h k = (refl, refl, h)
  reflect_as_v1 v1alpha w request h k = absurd (h refl)
  reflect_as_v1 unknown w request h k = by_result (reflect_v1 server w request) k
    where
      by_result :
          (r : Result MessageResponse × World)
          → refuses r.0 ≡ false
          → ((settle server request r).0 ≡ r.0)
            × ((settle server request r).1.1 ≡ r.1)
            × ((settle server request r).1.0 ≢ v1alpha)
      by_result (done response, w') e = (refl, refl, λ p. cc)
      by_result (fail f, w') e = rw e (refl, refl, λ p. cc)

  -- Against a server whose v1 never answers that it is not implemented, a source that does not
  -- keep the older version gives for a sequence of requests the results of v1 alone.
  pub reflect-answers_v1 :
      (version : Version) (w : World) (requests : List MessageRequest)
      → ((u : World) (m : MessageRequest) → refuses (reflect_v1 server u m).0 ≡ false)
      → version ≢ v1alpha
      → answers (reflect server) (version, w) requests ≡ answers (reflect_v1 server) w requests
  reflect-answers_v1 version w [] serves h = refl
  reflect-answers_v1 version w (request ∷ rest) serves h =
      let (result, world, kept) = reflect_as_v1 version w request h (serves w request) in
      let (kept_version, w') = (reflect server (version, w) request).1 in
      let later = reflect-answers_v1 kept_version w' rest serves kept in cc (result, later, world)

  -- A request with a version that may stand for v1alpha goes as one of v1alpha does.
  reflect_as_v1alpha :
      (version : Version) (w : World) (request : MessageRequest)
      → version ≢ v1
      → refuses (reflect_v1 server w request).0 ≡ true
      → (reflect_v1 server w request).1 ≡ w
      → ((reflect server (version, w) request).0 ≡ (reflect_v1alpha server w request).0)
        × ((reflect server (version, w) request).1.1 ≡ (reflect_v1alpha server w request).1)
        × ((reflect server (version, w) request).1.0 ≢ v1)
  unfolding reflect
  reflect_as_v1alpha v1 w request h k same = absurd (h refl)
  reflect_as_v1alpha v1alpha w request h k same = (refl, refl, h)
  reflect_as_v1alpha unknown w request h k same = by_result (reflect_v1 server w request) k same
    where
      by_alpha :
          (r : Result MessageResponse × World)
          → ((settle_alpha server r).0 ≡ r.0)
            × ((settle_alpha server r).1.1 ≡ r.1)
            × ((settle_alpha server r).1.0 ≢ v1)
      by_alpha (done response, w') = (refl, refl, λ p. cc)
      by_alpha (fail f, w') = (refl, refl, λ p. cc)

      by_result :
          (r : Result MessageResponse × World)
          → refuses r.0 ≡ true
          → r.1 ≡ w
          → ((settle server request r).0 ≡ (reflect_v1alpha server w request).0)
            × ((settle server request r).1.1 ≡ (reflect_v1alpha server w request).1)
            × ((settle server request r).1.0 ≢ v1)
      by_result (done response, w') e p = cc
      by_result (fail f, w') e p = rw (e, p) (by_alpha (reflect_v1alpha server w request))

  -- Against a server that refuses v1 as not implemented, with no change to its state, a source that
  -- does not keep v1 gives for a sequence of requests the results of v1alpha alone.
  pub reflect-answers_v1alpha :
      (version : Version) (w : World) (requests : List MessageRequest)
      → ((u : World) (m : MessageRequest)
          → (refuses (reflect_v1 server u m).0 ≡ true) × ((reflect_v1 server u m).1 ≡ u))
      → version ≢ v1
      → answers (reflect server) (version, w) requests ≡ answers (reflect_v1alpha server) w requests
  reflect-answers_v1alpha version w [] refused h = refl
  reflect-answers_v1alpha version w (request ∷ rest) refused h =
      let (result, world, kept) =
        reflect_as_v1alpha version w request h (refused w request).0 (refused w request).1 in
      let (kept_version, w') = (reflect server (version, w) request).1 in
      let later = reflect-answers_v1alpha kept_version w' rest refused kept in
      cc (result, later, world)
