-- ===== src/Common.antt =====
-- The parameters that all components share: `CommonParameters` of Pulsar/include/TypeDefinitions.h and
-- `ValidateCommonParamaters` of Pulsar/src/CommonComponents.cpp.
use pulsar_server_framework.Prelude.{ℕ, ◌+◌, ◌-◌, ◌%◌, ◌^◌, Bool, not, ◌&&◌, ltb}

-- The fields are C ints, as their 32-bit patterns.
pub record CommonParameters : Type 0 where
  pub max_pending_responses : ℕ
  pub max_request_processing_threads : ℕ
  pub keep_alive_frequency_in_seconds : ℕ
  pub status_update_frequency_in_seconds : ℕ

-- The constructor of CommonParameters.
pub default_common_parameters : CommonParameters
default_common_parameters = record {
  keep_alive_frequency_in_seconds = 30;
  status_update_frequency_in_seconds = 5;
  max_pending_responses = 16;
  max_request_processing_threads = 5;
}

-- `a < b` of two ints.
abbrev pub int_lt : ℕ → ℕ → Bool
int_lt a b = ltb ((a + 2 ^ 31) % 2 ^ 32) ((b + 2 ^ 31) % 2 ^ 32)

-- ValidateCommonParamaters: the five assertions hold. `max_work_threads` is libuv's
-- MAX_THREADPOOL_SIZE.
unfoldable pub validate_common_parameters : ℕ → CommonParameters → Bool
validate_common_parameters max_work_threads p =
    let max_allowed_threads = max_work_threads - 2 in
    not (int_lt p.max_request_processing_threads 1)
    && (int_lt p.max_request_processing_threads max_allowed_threads
        && (not (int_lt p.max_pending_responses p.max_request_processing_threads)
            && (not (int_lt p.keep_alive_frequency_in_seconds 1)
                && not (int_lt p.status_update_frequency_in_seconds 1))))

-- What the constructor of CommonComponents sets the size of libuv's thread pool to.
pub thread_pool_size : CommonParameters → ℕ
thread_pool_size p = (p.max_request_processing_threads + 2) % 2 ^ 32
