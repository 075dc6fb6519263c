-- ===== src/Tests/Versions.antt =====
-- Runs of the theorems on reflection: the server counts the requests that it answers.
use grpcurl_rs.Base.{ℕ, ◌+◌, List, [], ◌∷◌, true, false, some, ◌≡◌, refl}
use grpcurl_rs.Error.{Code, Status}
use grpcurl_rs.Reflection.{
  MessageRequest, MessageResponse, AlphaResponse, refused, answered, Server, unknown,
  map_status_error, is_unimplemented, extract_response, reflect, reflect_v1, reflect_v1alpha,
}
use grpcurl_rs.Reflection.Versions.{answers, refuses, reflect-answers_v1, reflect-answers_v1alpha}

abbrev unimplemented_status : Status
unimplemented_status = record {
  code = Code.unimplemented;
  message = [];
  details = [];
  metadata = [];
}

abbrev new_server : Server ℕ
new_server = record {
  ask_v1 = λ n m. (answered (some (MessageResponse.list_services_response ((n ∷ []) ∷ []))), n + 1);
  ask_v1alpha = λ n m. (refused unimplemented_status, n);
  show_code = λ c. [];
}

abbrev old_server : Server ℕ
old_server = record {
  ask_v1 = λ n m. (refused unimplemented_status, n);
  ask_v1alpha =
      λ n m. (answered (some (AlphaResponse.list_services_response ((n ∷ []) ∷ []))), n + 1);
  show_code = λ c. [];
}

abbrev asked : List MessageRequest
asked = MessageRequest.list_services [] ∷ MessageRequest.file_by_filename (b'a' ∷ []) ∷ []

new_serves : (u : ℕ) (m : MessageRequest) → refuses (reflect_v1 new_server u m).0 ≡ false
unfolding reflect_v1 extract_response
new_serves u m = refl

old_refuses :
    (u : ℕ) (m : MessageRequest)
    → (refuses (reflect_v1 old_server u m).0 ≡ true) × ((reflect_v1 old_server u m).1 ≡ u)
unfolding reflect_v1 map_status_error is_unimplemented
old_refuses u m = (refl, refl)

reflect-answers_v1_example :
    answers (reflect new_server) (unknown, 0) asked ≡ answers (reflect_v1 new_server) 0 asked
reflect-answers_v1_example = reflect-answers_v1 new_server unknown 0 asked new_serves (λ e. cc)

reflect-answers_v1alpha_example :
    answers (reflect old_server) (unknown, 0) asked ≡ answers (reflect_v1alpha old_server) 0 asked
reflect-answers_v1alpha_example =
    reflect-answers_v1alpha old_server unknown 0 asked old_refuses (λ e. cc)
