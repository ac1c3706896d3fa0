-- ===== src/Session/State.antt =====
-- src/file_session.cc, include/xrdhover/file_session.hh: the data of one asynchronous file session.
-- Times are clock readings in nanoseconds, 0 for a time point that was never set. The pacing
-- callbacks are kept as "is it set"; a call of one is an entry of the session's log.
use xrdhover.Prelude.{ℕ, Bool, List}
use xrdhover.Prelude.Text.{Text}

pub record FileSessionOptions : Type 0 where
  pub url : Text
  pub chunk_size : ℕ
  pub offset : ℕ
  pub max_bytes : ℕ
  pub vector_chunks : ℕ
  pub random_offset : Bool
  pub offset_seed : ℕ
  pub wall_timeout : ℕ

pub record FileSessionPacing : Type 0 where
  pub paced : Bool
  pub prepaid_op_bytes : ℕ
  pub on_ready : Bool
  pub on_refund : Bool
  pub on_read_op : Bool

pub record FileSessionResult : Type 0 where
  pub ok : Bool
  pub timed_out : Bool
  pub error : Text
  pub status_code : ℕ
  pub err_code : ℕ
  pub url : Text
  pub data_server : Text
  pub file_size : ℕ
  pub open_hosts : ℕ
  pub open_ns : ℕ
  pub ttfb_ns : ℕ
  pub read_ns : ℕ
  pub close_ns : ℕ
  pub total_ns : ℕ
  pub bytes_read : ℕ
  pub ops : ℕ
  pub is_vector : Bool
  pub op_lat_min_ns : ℕ
  pub op_lat_max_ns : ℕ

-- XrdCl::XRootDStatus, of a submission or of a response.
pub record Status : Type 0 where
  pub is_ok : Bool
  pub code : ℕ
  pub err_no : ℕ
  pub text : Text

-- One piece of a VectorRead: where it is read from, how long it is, where it lands in the buffer.
pub record Chunk : Type 0 where
  pub off : ℕ
  pub len : ℕ
  pub at : ℕ

-- `File::Read(off, len)` or `File::VectorRead(chunks)`.
pub data ReadRequest : Type 0 where
  read_at : ℕ → ℕ → ReadRequest
  vector_read : List Chunk → ReadRequest

-- What the session asks of its surroundings, in the order of the calls.
pub data Effect : Type 0 where
  submit_open submit_stat submit_close : Effect
  submit_read : ReadRequest → Effect
  refund : ℕ → Effect
  read_op : ℕ → Effect
  ready : Effect
  done : FileSessionResult → Effect
  arm disarm : Effect

pub record Times : Type 0 where
  pub start : ℕ
  pub open_at : ℕ
  pub first_byte : ℕ
  pub first_issue : ℕ
  pub last_byte : ℕ
  pub end_at : ℕ
  pub issue : ℕ

-- The response handlers that XrdCl::File still owes a call. The program does not see this.
pub record Owed : Type 0 where
  pub open_cbs : ℕ
  pub stat_cbs : ℕ
  pub read_cbs : ℕ
  pub close_cbs : ℕ

pub record FileSession : Type 0 where
  pub opts : FileSessionOptions
  pub on_done : Bool
  pub pacing : FileSessionPacing
  pub result : FileSessionResult
  pub owed : Owed
  pub buffer_size : ℕ
  pub self_keep : Bool
  pub data_server : Text
  pub file_size : ℕ
  pub remaining : ℕ
  pub next_offset : ℕ
  pub requested : ℕ
  pub bytes_read : ℕ
  pub ops : ℕ
  pub hops : ℕ
  pub rng : ℕ
  pub lat_sum : ℕ
  pub lat_min : ℕ
  pub lat_max : ℕ
  pub times : Times
  pub pending_cbs : ℕ
  pub timed_out : Bool
  pub close_requested : Bool
  pub budget_set : Bool
  pub issued_read : Bool
  pub completed : Bool
  -- Newest first.
  pub log : List Effect

-- std::mt19937_64 with its state as a number, and std::uniform_int_distribution(0, bound).
pub record Rng : Type 0 where
  pub seeded : ℕ → ℕ
  pub uniform : ℕ → ℕ → ℕ × ℕ
