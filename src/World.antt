-- ===== src/World.antt =====
-- The state of the service's process, and what it finds outside: the clock, the file system, child
-- processes, the broker's JWKS endpoint and the libraries that read tokens and ccaches.
use krb5_token_service.Prelude.{ℕ, Bool, Text, Option, List}
use krb5_token_service.Prelude.Dict.{Dict}
use krb5_token_service.Python.Utf8.{Bytes}
use krb5_token_service.RateLimit.{RateLimiter}

-- The clock is read in nanoseconds; the settings count seconds.
abbrev pub ticks_per_second : ℕ
ticks_per_second = 1000000000

pub record File : Type 0 where
  pub content : Bytes
  pub mode : ℕ

-- A directory without subdirectories, by file name.
abbrev pub Files : Type 0
Files = Dict File

-- The arguments of `subprocess.run`.
pub record Call : Type 0 where
  pub argv : List Text
  pub stdin : Option Bytes
  pub timeout_seconds : ℕ
  pub environ : Dict Text

-- A POSIX return code: `killed n` is the negative number -n.
pub data ReturnCode : Type 0 where
  exited killed : ℕ → ReturnCode

-- What comes of a child: it cannot be started, it is killed at its timeout, or it ends with a return
-- code, its standard error output and the private directory as it left it.
pub data Ran : Type 0 where
  not_started : Text → Ran
  timed_out : Ran
  completed : ReturnCode → Bytes → Files → Ran

-- A started child: its call and the private directory that it found.
pub record Spawned : Type 0 where
  pub call : Call
  pub found : Files

-- A JWKS key: its `kid` where that is a text, and the rest of the object.
pub record Jwk : Type 0 where
  pub kid : Option Text
  pub body : Text

-- `_JwksEntry`
pub record JwksEntry : Type 0 where
  pub keys : List Jwk
  pub fetched_at : ℕ

-- The fields of the audit line of a request.
pub record AuditLine : Type 0 where
  pub subject : Option Text
  pub username : Option Text
  pub principal : Option Text
  pub jti : Option Text
  pub outcome : Text
  pub request_id : Text

-- A log event: the audit line, or another event with its fields as texts.
pub data Event : Type 0 where
  audited : AuditLine → Event
  noted : Text → Dict Text → Event

-- `ticks` counts what the process has asked of the outside; `buffers` holds the content of every
-- `bytearray`, which is referred to by its position; `dirs` the temporary directories that exist;
-- `spawned` the children and `log` the log events, the latest first.
pub record World : Type 0 where
  pub limiter : RateLimiter
  pub jwks_cache : Dict JwksEntry
  pub buffers : List Bytes
  pub dirs : Dict Files
  pub spawned : List Spawned
  pub log : List Event
  pub ticks : ℕ

-- A principal as pykrb5 gives it: its realm, and `str` of it.
pub record Principal : Type 0 where
  pub realm : Bytes
  pub display : Text

pub record Credential : Type 0 where
  pub server : Principal
  pub endtime : ℕ
  pub renew_till : ℕ

-- Iterating over a ccache: `broken` is a `Krb5Error` raised on the way.
pub data Credentials : Type 0 where
  finished : Credentials
  broken : Text → Credentials
  next : Credential → Credentials → Credentials

-- A file that pykrb5 reads as a ccache, or its `Krb5Error`.
pub data Reading : Type 0 where
  unreadable : Text → Reading
  readable : Principal → Credentials → Reading

-- The claims of a token that are read: `sub`, `jti`.
pub record Claims : Type 0 where
  pub sub : Text
  pub jti : Option Text

-- What PyJWT answers: a value, or a `PyJWTError`, a `ValueError` or a `KeyError` with its text.
pub data Verified {ℓ} (A : Type ℓ) : Type ℓ where
  valid : A → Verified A
  invalid : Text → Verified A

-- What lies outside the program. A function of a number is asked anew each time: the number is that
-- of the question, so its answers may change from one to the next in any way.
pub record Outside : Type 0 where
  -- `time.monotonic()`, in nanoseconds
  pub monotonic : ℕ → ℕ
  -- whether an operation on the file system fails with an `OSError`
  pub disk_fails : ℕ → Bool
  -- the name that `TemporaryDirectory` picks
  pub temp_name : ℕ → Text
  -- the mode that `write_bytes` gives to a new file
  pub created_mode : ℕ
  pub environ : Dict Text
  -- `sys.executable`
  pub python : Text
  pub child : ℕ → Call → Files → Ran
  -- the keys of the JWKS document at a URL; `none` is any exception on the way
  pub fetch : ℕ → Text → Option (List Jwk)
  pub uuid4 : ℕ → Text
  -- `shutil.which(…) is not None`, and `os.access(…, os.R_OK)`
  pub has_executable : ℕ → Text → Bool
  pub can_read : ℕ → Text → Bool
  -- pykrb5 on the content of a file, or on a missing one
  pub krb5 : Option Bytes → Reading
  -- PyJWT: the `kid` of a token's header; `RSAAlgorithm.from_jwk` followed by `jwt.decode` with RS256,
  -- an audience and an issuer, at a time; the subject without verification, if it can be read
  pub unverified_kid : Text → Verified (Option Text)
  pub decode_token : ℕ → Text → Jwk → Text → Text → Verified Claims
  pub unverified_sub : Text → Verified (Option Text)
