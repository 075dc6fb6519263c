-- ===== src/Reflection.antt =====
-- grpcurl-core/src/reflection.rs: requests to a server's reflection, in the two versions of its
-- protocol. The two clients are given, by how each exchange with the server goes.
pub mod Pool
pub mod Source
pub mod Versions
use grpcurl_rs.Base.{
  ℕ, Text, text, List, [], ◌∷◌, ◌++◌, map, Bool, true, false, Option, none, some, if◌then◌else◌,
}
use grpcurl_rs.Base.Ints.{ℤ}
use grpcurl_rs.Error.{
  Status, GrpcurlError, reflection_not_supported, grpc_status, other, is_unimplemented_code, Result,
  done, fail,
}

-- `v1::server_reflection_request::MessageRequest`
pub data MessageRequest : Type 0 where
  file_by_filename file_containing_symbol : Text → MessageRequest
  file_containing_extension : (containing_type : Text) (extension_number : ℤ) → MessageRequest
  all_extension_numbers_of_type list_services : Text → MessageRequest

-- `v1::server_reflection_response::MessageResponse`
pub data MessageResponse : Type 0 where
  file_descriptor_response : List (List ℕ) → MessageResponse
  all_extension_numbers_response :
      (base_type_name : Text) (extension_number : List ℤ) → MessageResponse
  list_services_response : List Text → MessageResponse
  error_response : (error_code : ℤ) (error_message : Text) → MessageResponse

-- The same messages of `v1alpha`.
pub data AlphaRequest : Type 0 where
  file_by_filename file_containing_symbol : Text → AlphaRequest
  file_containing_extension : (containing_type : Text) (extension_number : ℤ) → AlphaRequest
  all_extension_numbers_of_type list_services : Text → AlphaRequest

pub data AlphaResponse : Type 0 where
  file_descriptor_response : List (List ℕ) → AlphaResponse
  all_extension_numbers_response :
      (base_type_name : Text) (extension_number : List ℤ) → AlphaResponse
  list_services_response : List Text → AlphaResponse
  error_response : (error_code : ℤ) (error_message : Text) → AlphaResponse

-- How an exchange goes: the call fails, its stream fails or ends at once, or a response comes, in
-- which the message may be absent.
pub data Exchange (Response : Type 0) : Type 0 where
  refused : Status → Exchange Response
  broken : Status → Exchange Response
  no_response : Exchange Response
  answered : Option Response → Exchange Response

-- The server behind the channel, with a state of its own.
pub record Server (World : Type 0) : Type 0 where
  pub ask_v1 : World → MessageRequest → Exchange MessageResponse × World
  pub ask_v1alpha : World → AlphaRequest → Exchange AlphaResponse × World
  -- an integer as `format!` prints it
  pub show_code : ℤ → Text

-- `VERSION_UNKNOWN`, `VERSION_V1` and `VERSION_V1ALPHA`
pub data Version : Type 0 where
  unknown v1 v1alpha : Version

unfoldable pub map_status_error : Status → GrpcurlError
map_status_error status =
    if is_unimplemented_code status.code then reflection_not_supported else grpc_status status

unfoldable pub is_unimplemented : GrpcurlError → Bool
is_unimplemented reflection_not_supported = true
is_unimplemented (grpc_status s) = is_unimplemented_code s.code
is_unimplemented _ = false

unfoldable pub convert_request_to_v1alpha : MessageRequest → AlphaRequest
convert_request_to_v1alpha (MessageRequest.file_by_filename s) = AlphaRequest.file_by_filename s
convert_request_to_v1alpha (MessageRequest.file_containing_symbol s) =
    AlphaRequest.file_containing_symbol s
convert_request_to_v1alpha (MessageRequest.file_containing_extension t n) =
    AlphaRequest.file_containing_extension t n
convert_request_to_v1alpha (MessageRequest.all_extension_numbers_of_type s) =
    AlphaRequest.all_extension_numbers_of_type s
convert_request_to_v1alpha (MessageRequest.list_services s) = AlphaRequest.list_services s

module _ {World : Type 0} (server : Server World) where
  abbrev reflection_error : ℤ → Text → GrpcurlError
  reflection_error code message =
      other (text "reflection error (code " ++ (server.show_code code ++ (text "): " ++ message)))

  unfoldable pub extract_response : Option MessageResponse → Result MessageResponse
  extract_response none = fail (other (text "reflection response has no message"))
  extract_response (some (MessageResponse.error_response code message)) =
      fail (reflection_error code message)
  extract_response (some msg) = done msg

  unfoldable pub convert_response_from_v1alpha : Option AlphaResponse → Result MessageResponse
  convert_response_from_v1alpha none = fail (other (text "reflection response has no message"))
  convert_response_from_v1alpha (some (AlphaResponse.file_descriptor_response files)) =
      done (MessageResponse.file_descriptor_response files)
  convert_response_from_v1alpha (some (AlphaResponse.all_extension_numbers_response t ns)) =
      done (MessageResponse.all_extension_numbers_response t ns)
  convert_response_from_v1alpha (some (AlphaResponse.list_services_response names)) =
      done (MessageResponse.list_services_response names)
  convert_response_from_v1alpha (some (AlphaResponse.error_response code message)) =
      fail (reflection_error code message)

  -- What both versions make of an exchange.
  abbrev pub received :
      {Response : Type 0}
      → (Option Response → Result MessageResponse)
      → Exchange Response
      → Result MessageResponse
  received extract (refused status) = fail (map_status_error status)
  received extract (broken status) = fail (grpc_status status)
  received extract no_response = fail (other (text "empty reflection response stream"))
  received extract (answered message) = extract message

  unfoldable pub reflect_v1 : World → MessageRequest → Result MessageResponse × World
  reflect_v1 w request =
      let (exchange, w') = server.ask_v1 w request in (received extract_response exchange, w')

  unfoldable pub reflect_v1alpha : World → MessageRequest → Result MessageResponse × World
  reflect_v1alpha w request =
      let (exchange, w') = server.ask_v1alpha w (convert_request_to_v1alpha request) in
      (received convert_response_from_v1alpha exchange, w')

  -- The result of the older version, and the version to keep.
  abbrev pub settle_alpha :
      Result MessageResponse × World → Result MessageResponse × (Version × World)
  settle_alpha (done response, w) = (done response, (v1alpha, w))
  settle_alpha (fail e, w) = (fail e, (unknown, w))

  abbrev pub settle :
      MessageRequest → Result MessageResponse × World → Result MessageResponse × (Version × World)
  settle request (done response, w) = (done response, (v1, w))
  settle request (fail e, w) =
      if is_unimplemented e
      then settle_alpha (reflect_v1alpha w request)
      else (fail e, (unknown, w))

  abbrev pub keep_version :
      Version → Result MessageResponse × World → Result MessageResponse × (Version × World)
  keep_version version (result, w) = (result, (version, w))

  -- `reflect`, with the cached version as state.
  unfoldable pub reflect :
      Version × World → MessageRequest → Result MessageResponse × (Version × World)
  reflect (v1, w) request = keep_version v1 (reflect_v1 w request)
  reflect (v1alpha, w) request = keep_version v1alpha (reflect_v1alpha w request)
  reflect (unknown, w) request = settle request (reflect_v1 w request)
