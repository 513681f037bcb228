-- ===== src/Server/Counts.antt =====
-- How the changes of the server's maps change what they hold and how much.
use html_inbox.Common.{
  adjust, adjust-none, adjust-some, delete_where, ℕ, ◌+◌, ◌≤◌, ◌≡◌, arith, Bool, [], ◌∷◌, none,
  some, Text, Dict, lookup, put, remove, if◌then◌else◌, inl, inr, Option-cases,
}
use html_inbox.Server.{Session}
use html_inbox.Server.Sessions.{cached_bytes}

pub cached-remove : (k : Text) (d : Dict Session) → cached_bytes (remove k d) ≤ cached_bytes d
unfolding remove
cached-remove k [] = omega arith
cached-remove k ((j, v) ∷ d) = ground (arith, cached-remove k d)

pub cached-put :
    (k : Text) (v : Session) (d : Dict Session)
    → lookup k d ≡ none
    → cached_bytes (put k v d) ≡ cached_bytes d + v.bytes
unfolding put lookup
cached-put k v [] e = omega arith
cached-put k v ((j, w) ∷ d) e = ground (arith, cached-put k v d)

pub cached-put_known :
    (k : Text) (v w : Session) (d : Dict Session)
    → lookup k d ≡ some w
    → cached_bytes (put k v d) + w.bytes ≡ cached_bytes d + v.bytes
unfolding put lookup
cached-put_known k v w [] e = cc
cached-put_known k v w ((j, u) ∷ d) e = ground (arith, cached-put_known k v w d)

pub cached-delete_where :
    (test : Session → Bool) (entries map : Dict Session)
    → cached_bytes (delete_where test entries map) ≤ cached_bytes map
unfolding delete_where
cached-delete_where test [] map = omega arith
cached-delete_where test ((k, v) ∷ entries) map = ground (
  arith,
  cached-remove k map,
  cached-delete_where test entries (if test v then remove k map else map),
)

-- The bytes of a session that grows by no more than the room that is left.
pub cached-adjust :
    (id : Text) (change : Session → Session) (d : Dict Session) (limit : ℕ)
    → cached_bytes d ≤ limit
    → ((old : Session)
        → lookup id d ≡ some old
        → cached_bytes d + (change old).bytes ≤ limit + old.bytes)
    → cached_bytes (adjust id change d) ≤ limit
cached-adjust id change d limit h room = elim (Option-cases (lookup id d)) [
  | inl missing ↦ rw (adjust-none id change d missing) h
  | inr (old, found) ↦
      rw (adjust-some id change d old found)
        (ground (arith, cached-put_known id (change old) old d found, room old found))
]
