-- ===== src/Sessions/Store.antt =====
-- internal/web/session_resolver.go: the bindings of conversations to sessions, the four indexes, and
-- how bindings leave the store. A Go map that is iterated is read in the order of its list.
use Prim.Native.String.{◌++◌ as join}
use m365_copilot2api_dsm.Prelude.{
  ℕ, ◌-◌, ◌*◌, Bool, false, Option, String, List, [], ◌∷◌, map, ltb, str_eq, if◌then◌else◌, Dict,
  lookup, insert, delete, value_or, length, take, sort_by, minute,
}

-- A tool call, with the texts of its function: "" stands for what is missing or no text. Its id is
-- not looked at.
pub record ToolCall : Type 0 where
  pub name : String
  pub arguments : String

-- A message, with its content as `contentToString` gives it; `none` is a nil list of calls.
pub record OaiMsg : Type 0 where
  pub role : String
  pub content : String
  pub tool_calls : Option (List ToolCall)

pub record SessionBinding : Type 0 where
  pub session_id : String
  pub conversation_id : String
  pub account_id : String
  pub created_at : ℕ
  pub last_used_at : ℕ
  pub ip_fingerprint : String
  pub user_field : String
  pub context_finger : String
  pub context_history : List OaiMsg
  pub tenant : String
  pub explicit_id : String

abbrev pub no_binding : SessionBinding
no_binding = record {
  session_id = "";
  conversation_id = "";
  account_id = "";
  created_at = 0;
  last_used_at = 0;
  ip_fingerprint = "";
  user_field = "";
  context_finger = "";
  context_history = [];
  tenant = "";
  explicit_id = "";
}

-- `dirty` is set by `persist.markDirty`.
pub record SessionResolver : Type 0 where
  pub sessions : Dict SessionBinding
  pub by_explicit : Dict String
  pub by_user_field : Dict String
  pub by_ip_finger : Dict String
  pub by_context : Dict String
  pub ttl : ℕ
  pub context_ttl : ℕ
  pub max_sessions : ℕ
  pub dirty : Bool

abbrev pub default_max_sessions : ℕ
default_max_sessions = 1000

-- `openSessionResolver` before it loads a file; the minutes are settings.
unfoldable pub open_session_resolver : ℕ → ℕ → SessionResolver
open_session_resolver ttl_minutes context_minutes = record {
  sessions = [];
  by_explicit = [];
  by_user_field = [];
  by_ip_finger = [];
  by_context = [];
  ttl = ttl_minutes * minute;
  context_ttl = context_minutes * minute;
  max_sessions = default_max_sessions;
  dirty = false;
}

-- `tenant + "\x00" + id`.
unfoldable pub explicit_key : String → String → String
explicit_key tenant id = join tenant (join "\0" id)

-- An index entry is written where its key is not "".
abbrev pub index : String → String → Dict String → Dict String
index key id entries = if str_eq key "" then entries else insert key id entries

unfoldable pub reindex : SessionResolver → SessionBinding → SessionResolver
reindex r s = record r {
  sessions = insert s.session_id s r.sessions;
  by_explicit =
      if str_eq s.explicit_id ""
      then r.by_explicit
      else insert (explicit_key s.tenant s.explicit_id) s.session_id r.by_explicit;
  by_user_field = index s.user_field s.session_id r.by_user_field;
  by_ip_finger = index s.ip_fingerprint s.session_id r.by_ip_finger;
  by_context = index s.context_finger s.session_id r.by_context;
}

-- An index entry goes only where it leads to the session that goes.
abbrev pub unindex : String → String → Dict String → Dict String
unindex key id entries =
    if str_eq (value_or "" (lookup key entries)) id then delete key entries else entries

unfoldable pub drop_session : SessionResolver → String → SessionBinding → SessionResolver
drop_session r id s = record r {
  sessions = delete id r.sessions;
  by_explicit =
      if str_eq s.explicit_id ""
      then r.by_explicit
      else delete (explicit_key s.tenant s.explicit_id) r.by_explicit;
  by_user_field = unindex s.user_field id r.by_user_field;
  by_ip_finger = unindex s.ip_fingerprint id r.by_ip_finger;
  by_context = unindex s.context_finger id r.by_context;
}

-- `now.Sub(s.LastUsedAt) > ttl`.
abbrev pub is_older : ℕ → ℕ → SessionBinding → Bool
is_older now ttl s = ltb ttl (now - s.last_used_at)

-- The bindings of these that pass a test go.
unfoldable pub drop_where :
    (SessionBinding → Bool) → Dict SessionBinding → SessionResolver → SessionResolver
drop_where gone [] r = r
drop_where gone ((id, s) ∷ rest) r =
    drop_where gone rest (if gone s then drop_session r id s else r)

unfoldable pub drop_all : List String → SessionResolver → SessionResolver
drop_all [] r = r
drop_all (id ∷ ids) r =
    drop_all ids (drop_session r id (value_or no_binding (lookup id r.sessions)))

-- The keys of a map, the least recently used first.
unfoldable pub by_use : Dict SessionBinding → List String
by_use sessions =
    map (λ (e : String × SessionBinding). e.0) (sort_by (λ e. e.1.last_used_at) sessions)

unfoldable pub drop_least_used : SessionResolver → SessionResolver
drop_least_used r =
    if ltb r.max_sessions (length r.sessions)
    then drop_all (take (length r.sessions - r.max_sessions) (by_use r.sessions)) r
    else r

-- `evictLocked`.
unfoldable pub evict : SessionResolver → ℕ → SessionResolver
evict r now = drop_least_used (drop_where (is_older now r.ttl) r.sessions r)

-- `loadLocked`, of the bindings that the file holds.
unfoldable pub load : SessionResolver → ℕ → List SessionBinding → SessionResolver
load r now [] = r
load r now (s ∷ held) = load (if is_older now r.ttl s then r else reindex r s) now held
