-- ===== src/Util/Curl.antt =====
-- `CurlAsync` of src/modules/util/util.{hpp,cpp}: one request after the other on a thread of its own.
-- The HTTP library is not modelled: a request that is performed is its callback's number.
use edge_device_webrtc.Prelude.{
  ◌∷◌, [], ◌++◌, none, not, ◌||◌, some, false, List, ℕ, true, if◌then◌else◌, Option, Bool,
}

-- Where `thread_` stands in `threadRunner`: in the loop, or behind the `break` and before the lock
-- under which it detaches. `detached` and `none` are the two states in which `thread_` has no id.
pub data Runner : Type 0 where
  no_thread looping leaving exited : Runner

pub record CurlAsync : Type 0 where
  pub thread : Runner
  pub callback : Option ℕ
  pub reinvoke : Bool
  pub stopped : Bool
  pub me : Bool
  pub invoked : List ℕ

-- `thread_.get_id() == std::thread::id()`: a thread that returned without detaching keeps its id.
abbrev pub has_id : Runner → Bool
has_id no_thread = false
has_id _ = true

unfoldable pub async_reinvoke : ℕ → CurlAsync → CurlAsync
async_reinvoke cb s = record s { callback = some cb; reinvoke = true }

-- Behind the first lock: the members are set without a lock, before the thread is there.
unfoldable pub start_thread : ℕ → CurlAsync → CurlAsync
start_thread cb s = record s { callback = some cb; reinvoke = true; me = true; thread = looping }

-- `asyncInvoke` looks at the thread under one lock and acts later: `checked` is the object at the
-- look, and `s` the object at the act. Other threads can take steps in between.
unfoldable pub async_invoke : ℕ → CurlAsync → CurlAsync → CurlAsync × Bool
unfolding async_reinvoke start_thread
async_invoke cb checked s =
    if has_id checked.thread then (async_reinvoke cb s, true) else (start_thread cb s, true)

-- `stop` sets the flag, then joins a thread that can be joined: it returns when that has ended.
unfoldable pub stop : CurlAsync → CurlAsync
stop s = record s { stopped = true }

-- One round of the loop in `threadRunner`: under the lock it leaves, or performs the request, clears
-- the request and takes the callback, which it then calls.
unfoldable pub runner_round : CurlAsync → CurlAsync
runner_round s = if s.stopped || not s.reinvoke then record s { thread = leaving } else record s {
  reinvoke = false;
  callback = none;
  invoked = s.invoked ++ elim s.callback [ none ↦ [] | some cb ↦ cb ∷ [] ];
}

-- The end of `threadRunner`: detaching gives `thread_` the empty id.
unfoldable pub runner_exit : CurlAsync → CurlAsync
runner_exit s = record s { thread = if s.stopped then exited else no_thread; me = false }
