-- ===== src/Offsd/Auth.antt =====
-- The soft authentication, `_soft_auth_handler`, and the handlers that only set a flag:
-- `_signal_handler`, `_request_restart`, `_service_stop_handler` (src/offsd/main.c), on POSIX.
use offs.Base.{
  Bool, true, false, Option, none, some, [], ◌∷◌, ◌++◌, length, drop, has_prefix-append, Bytes,
  codes, has_prefix, if◌then◌else◌, ◌≡◌, ◌≢◌, ◌↔◌, refl, arith,
}

-- A token behind `Bearer `, by bcrypt_check (true for the result 0): the new is_authenticated.
unfoldable pub check_token : (Bytes → Bytes → Bool) → Bytes → Bytes → Bool → Bool
check_token bcrypt_check hash [] before = before
check_token bcrypt_check hash (x ∷ xs) before = if bcrypt_check (x ∷ xs) hash then true else before

-- By the header `Authorization`.
unfoldable pub check_header : (Bytes → Bytes → Bool) → Bytes → Option Bytes → Bool → Bool
check_header bcrypt_check hash none before = before
check_header bcrypt_check hash (some header) before =
    if has_prefix (codes "Bearer ") header
    then check_token bcrypt_check hash (drop 7 header) before
    else before

-- `_soft_auth_handler`: the request's is_authenticated after it, given the context's hash; the
-- handler itself always returns 0.
unfoldable pub soft_auth_handler :
    (Bytes → Bytes → Bool) → Option Bytes → Option Bytes → Bool → Bool
soft_auth_handler bcrypt_check none header before = before
soft_auth_handler bcrypt_check (some hash) header before =
    check_header bcrypt_check hash header before

has_prefix_split : (a b : Bytes) → has_prefix a b ≡ true → b ≡ a ++ drop (length a) b
unfolding has_prefix
has_prefix_split [] b h = refl
has_prefix_split (x ∷ xs) [] h = absurd (ground arith)
has_prefix_split (x ∷ xs) (y ∷ ys) h = ground (arith, has_prefix_split xs ys)

check_token_iff :
    (bcrypt_check : Bytes → Bytes → Bool) (key token : Bytes)
    → (check_token bcrypt_check key token false ≡ true)
      ↔ ((token ≢ []) × (bcrypt_check token key ≡ true))
unfolding check_token
check_token_iff bcrypt_check key [] = ground arith
check_token_iff bcrypt_check key (x ∷ xs) = ground arith

check_header_accepts :
    (bcrypt_check : Bytes → Bytes → Bool) (key header : Bytes)
    → check_header bcrypt_check key (some header) false ≡ true
    → (has_prefix (codes "Bearer ") header ≡ true)
      × (check_token bcrypt_check key (drop 7 header) false ≡ true)
unfolding check_header
check_header_accepts bcrypt_check key header h = ground arith

check_header_token :
    (bcrypt_check : Bytes → Bytes → Bool) (key token : Bytes)
    → check_token bcrypt_check key token false ≡ true
    → check_header bcrypt_check key (some (codes "Bearer " ++ token)) false ≡ true
unfolding check_header codes
check_header_token bcrypt_check key token h = rw (has_prefix-append (codes "Bearer ") token) h

-- The handler accepts exactly a header `Bearer `, a nonempty token behind it, that the library's
-- check finds to match the configured hash; a request it does not accept stays unauthenticated.
pub soft_auth_handler_iff :
    (bcrypt_check : Bytes → Bytes → Bool) (key header : Bytes)
    → (soft_auth_handler bcrypt_check (some key) (some header) false ≡ true) ↔ (
        (token : Bytes) × (header ≡ codes "Bearer " ++ token)
        × (token ≢ [])
        × (bcrypt_check token key ≡ true))
unfolding soft_auth_handler codes
soft_auth_handler_iff bcrypt_check key header = (
  λ h.
      let (prefixed, fits) = check_header_accepts bcrypt_check key header h in
      (
        drop 7 header,
        has_prefix_split (codes "Bearer ") header prefixed,
        ((check_token_iff bcrypt_check key (drop 7 header)).0 fits).0,
        ((check_token_iff bcrypt_check key (drop 7 header)).0 fits).1,
      ),
  λ (token, e, nonempty, matches). rw e (
      check_header_token bcrypt_check key token
        ((check_token_iff bcrypt_check key token).1 (nonempty, matches))),
)

-- What a signal handler does: a look for updates, the flag `running` cleared, or nothing.
pub data Signalled : Type 0 where
  checks_updates stops ignored : Signalled

-- `_signal_handler`, by whether the signal is SIGHUP, there is an update actor, and there is a node.
unfoldable pub signal_handler : Bool → Bool → Bool → Signalled
signal_handler true true node = checks_updates
signal_handler true false node = if node then stops else ignored
signal_handler false updates node = if node then stops else ignored
