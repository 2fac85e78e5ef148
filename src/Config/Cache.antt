-- ===== src/Config/Cache.antt =====
-- config/cache.rs: the commands that sign and push a store path, and the filter of what is pushed.
-- Durations are milliseconds.
use crystal_forge.Prelude.{
  ℕ, ◌≡◌, String, Bool, true, false, Option, none, some, List, [], ◌∷◌, ◌++◌, arith, if◌then◌else◌,
  str_contains, is_some,
}
use crystal_forge.Table.{exists}
use crystal_forge.Agent.Deploy.{CacheType, s3, attic, http, nix}

pub record CacheConfig : Type 0 where
  pub cache_type : CacheType
  pub push_to : Option String
  pub push_after_build : Bool
  pub signing_key : Option String
  pub compression : Option String
  pub push_filter : Option (List String)
  pub parallel_uploads : ℕ
  pub s3_region : Option String
  pub s3_profile : Option String
  pub attic_token : Option String
  pub attic_cache_name : Option String
  pub attic_ignore_upstream_cache_filter : Bool
  pub attic_jobs : ℕ
  pub max_retries : ℕ
  pub retry_delay_seconds : ℕ
  pub poll_interval : ℕ
  pub push_timeout_seconds : ℕ
  pub force_repush : Bool
  pub require_sigs : Bool

pub record CacheCommand : Type 0 where
  pub command : String
  pub args : List String

unfoldable pub sign_command : CacheConfig → String → Option CacheCommand
sign_command c store_path = elim c.signing_key [
  | none ↦ none
  | some key_path ↦ some (record {
    command = "nix";
    args = "store" ∷ "sign" ∷ "--recursive" ∷ "--key-file" ∷ key_path ∷ store_path ∷ [];
  })
]

-- `to_text` prints a number.
unfoldable pub attic_cache_command : (ℕ → String) → CacheConfig → String → Option CacheCommand
attic_cache_command to_text c store_path = elim c.attic_cache_name [
  | none ↦ none
  | some cache_name ↦ some (record {
    command = "attic";
    args =
        ("push" ∷ cache_name ∷ store_path ∷ [])
        ++ (if c.attic_ignore_upstream_cache_filter
            then "--ignore-upstream-cache-filter" ∷ []
            else [])
        ++ "--jobs" ∷ to_text c.attic_jobs ∷ [];
  })
]

abbrev pub compression_args : Option String → List String
compression_args none = []
compression_args (some compression) = "--compression" ∷ compression ∷ []

-- `s3_cache_command` and `nix_cache_command` have the same body.
unfoldable pub nix_cache_command : CacheConfig → String → Option CacheCommand
nix_cache_command c store_path = elim c.push_to [
  | none ↦ none
  | some push_to ↦ some (record {
    command = "nix";
    args =
        ("copy" ∷ "--to" ∷ push_to ∷ [])
        ++ (if c.force_repush then "--refresh" ∷ [] else [])
        ++ compression_args c.compression
        ++ store_path ∷ [];
  })
]

unfoldable pub s3_cache_command : CacheConfig → String → Option CacheCommand
unfolding nix_cache_command
s3_cache_command = nix_cache_command

abbrev pub command_of : (ℕ → String) → CacheType → CacheConfig → String → Option CacheCommand
command_of to_text s3 = s3_cache_command
command_of to_text attic = attic_cache_command to_text
command_of to_text http = nix_cache_command
command_of to_text nix = nix_cache_command

unfoldable pub cache_command : (ℕ → String) → CacheConfig → String → Option CacheCommand
unfolding s3_cache_command attic_cache_command nix_cache_command
cache_command to_text c = command_of to_text c.cache_type c

abbrev pub args_of : Option CacheCommand → Option (List String)
args_of none = none
args_of (some cmd) = some cmd.args

unfoldable pub copy_command_args : (ℕ → String) → CacheConfig → String → Option (List String)
unfolding cache_command
copy_command_args to_text c store_path = args_of (cache_command to_text c store_path)

unfoldable pub should_push : CacheConfig → String → Bool
should_push c target_name =
    if c.push_after_build
    then elim c.push_filter [
      | none ↦ true
      | some filters ↦ exists (λ filter. str_contains target_name filter) filters
    ]
    else false

-- What a command needs of the configuration.
abbrev pub destination : CacheType → CacheConfig → Option String
destination attic c = c.attic_cache_name
destination _ c = c.push_to

-- There is a command exactly if its destination is configured.
pub cache_command-is_some :
    (to_text : ℕ → String) (c : CacheConfig) (store_path : String) (t : CacheType)
    → is_some (command_of to_text t c store_path) ≡ is_some (destination t c)
unfolding s3_cache_command attic_cache_command nix_cache_command
cache_command-is_some to_text c store_path s3 = ground arith
cache_command-is_some to_text c store_path attic = ground arith
cache_command-is_some to_text c store_path http = ground arith
cache_command-is_some to_text c store_path nix = ground arith
