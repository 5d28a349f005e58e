-- ===== src/Ddi/Response.antt =====
-- ddi/src/response_impl.cpp, ddi/src/hawkbit_response.cpp and their headers: the answers of a
-- user's handler, their builders, and the words of the protocol.
pub mod Added
use up2date_cpp.Base.{ℕ, Bool, true, false, Option, none, List, [], ◌∷◌, ◌++◌, if◌then◌else◌}
use up2date_cpp.Text.{Text, codes, equal, less}
use up2date_cpp.Multimap.{Multimap}

pub data Finished : Type 0 where
  success failure no_result : Finished

pub data Execution : Type 0 where
  closed proceeding canceled scheduled rejected resumed download downloaded : Execution

pub data Mode : Type 0 where
  merge replace remove : Mode

unfoldable pub finished_to_string : Finished → Text
finished_to_string Finished.success = codes "success"
finished_to_string Finished.failure = codes "failure"
finished_to_string Finished.no_result = codes "none"

unfoldable pub execution_to_string : Execution → Text
execution_to_string Execution.closed = codes "closed"
execution_to_string Execution.proceeding = codes "proceeding"
execution_to_string Execution.canceled = codes "canceled"
execution_to_string Execution.scheduled = codes "scheduled"
execution_to_string Execution.rejected = codes "rejected"
execution_to_string Execution.resumed = codes "resumed"
execution_to_string Execution.download = codes "download"
execution_to_string Execution.downloaded = codes "downloaded"

unfoldable pub mode_to_string : Mode → Text
mode_to_string Mode.merge = codes "merge"
mode_to_string Mode.replace = codes "replace"
mode_to_string Mode.remove = codes "remove"

-- `class ResponseImpl` and `class ResponseBuilderImpl`, which have the same fields. A listener is
-- a user's object, known by a number.
pub record Response : Type 0 where
  pub finished : Finished
  pub execution : Execution
  pub details : List Text
  pub listener : Option ℕ
  pub ignore_sleep : Bool

-- `ResponseBuilder::newInstance`: the object is value-initialised, so `execution` is the first of
-- its enumeration.
unfoldable pub new_response_builder : Response
new_response_builder = record {
  finished = Finished.no_result;
  execution = Execution.closed;
  details = [];
  listener = none;
  ignore_sleep = false;
}

unfoldable pub add_detail : Text → Response → Response
add_detail detail b = record b { details = b.details ++ detail ∷ [] }

unfoldable pub set_finished : Finished → Response → Response
set_finished finished b = record b { finished = finished }

unfoldable pub set_execution : Execution → Response → Response
set_execution execution b = record b { execution = execution }

unfoldable pub set_response_delivery_listener : Option ℕ → Response → Response
set_response_delivery_listener listener b = record b { listener = listener }

unfoldable pub set_ignore_sleep : Response → Response
set_ignore_sleep b = record b { ignore_sleep = true }

-- `ResponseBuilderImpl::build`
unfoldable pub build_response : Response → Response
build_response b = record {
  finished = b.finished;
  execution = b.execution;
  details = b.details;
  listener = b.listener;
  ignore_sleep = b.ignore_sleep;
}

-- `class ConfigResponseImpl` and `class ConfigResponseBuilderImpl`.
pub record ConfigResponse : Type 0 where
  pub data_map : Multimap
  pub mode : Mode
  pub ignore_sleep : Bool

-- `ConfigResponseBuilder::newInstance`
unfoldable pub new_config_builder : ConfigResponse
new_config_builder = record { data_map = []; mode = Mode.merge; ignore_sleep = false }

-- `std::map::insert`: a key that is there keeps its value.
unfoldable pub insert_new : Text → Text → Multimap → Multimap
insert_new k v [] = (k, v) ∷ []
insert_new k v ((j, w) ∷ m) =
    let rest = (j, w) ∷ insert_new k v m in
    if less k j then (k, v) ∷ (j, w) ∷ m else if equal j k then (j, w) ∷ m else rest

unfoldable pub add_data : Text → Text → ConfigResponse → ConfigResponse
add_data k v b = record b { data_map = insert_new k v b.data_map }

unfoldable pub set_mode : Mode → ConfigResponse → ConfigResponse
set_mode mode b = record b { mode = mode }

unfoldable pub set_ignore_sleep_config : ConfigResponse → ConfigResponse
set_ignore_sleep_config b = record b { ignore_sleep = true }

-- `ConfigResponseBuilderImpl::build`
unfoldable pub build_config : ConfigResponse → ConfigResponse
build_config b = record { data_map = b.data_map; mode = b.mode; ignore_sleep = b.ignore_sleep }
