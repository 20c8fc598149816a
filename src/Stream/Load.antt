-- ===== src/Stream/Load.antt =====
-- load_window of S3Streambuf: the disk cache, the credentials, the fetch, and the window they leave.
pub mod Ranges
pub mod Seeks
pub mod Reading
pub mod Cursor
use nanos3reader.Prelude.{
  ℕ, ◌+◌, ◌*◌, ◌/◌, Bool, true, false, not, ◌&&◌, Option, none, some, ◌++◌, if◌then◌else◌,
}
use nanos3reader.Text.{Text, codes}
use nanos3reader.Uri.{Config}
use nanos3reader.World.{World, is_valid}
use nanos3reader.Credentials.Provider.{Provider, em_dash, diagnostic_of, get}
use nanos3reader.DiskCache.{Io, DiskCache, Files, try_load, store}
use nanos3reader.Stream.Fetch.{Object, Outcome, loaded, past_end, broken, fetch_loop}
use nanos3reader.Stream.Buffer.{Buffer, install_window, fail, end_window, clear_error}

-- What a load may change beside the buffer: the credential chain, the disk cache with its directory,
-- and the world.
pub record Around (State : Type 0) : Type 0 where
  pub provider : Provider
  pub cache : DiskCache
  pub files : Files
  pub state : State

-- With the cache on, the start of the chunk that has the position.
unfoldable pub fetch_start : Bool → ℕ → ℕ → ℕ
fetch_start cache_on read_ahead target =
    if cache_on then target / read_ahead * read_ahead else target

module _ (w : World) (cfg : Config) (uri : Text) (object : Object) (io : Io) (fuel : ℕ) where
  open w use {State, now}

  -- A whole block of a 206 goes to the cache, where that is on.
  unfoldable pub cache_store : Bool → Text → ℕ → Around State → Option (Around State)
  cache_store false window start a = some a
  cache_store true window start a =
      elim (store fuel io (now a.state) a.cache a.files uri start window) [
        | none ↦ none
        | some files ↦ some (record a { files = files })
      ]

  -- The window that the fetch leaves.
  unfoldable pub use_outcome :
      Outcome → ℕ → ℕ → Buffer → Around State → Option (Bool × Buffer × Around State)
  use_outcome (loaded window partial) start target b a =
      elim (cache_store (a.cache.enabled && partial) window start a) [
        | none ↦ none
        | some a' ↦
            some (
              true,
              clear_error (install_window object.read_ahead start target partial window b),
              a',
            )
      ]
  use_outcome past_end start target b a = some (true, clear_error (end_window start b), a)
  use_outcome (broken msg) start target b a = some (false, fail msg b, a)

  -- The part behind the cache.
  unfoldable pub fetch_window :
      ℕ → ℕ → Buffer → Around State → Option (Bool × Buffer × Around State)
  fetch_window start target b a =
      let (cred, provider, s) = get w a.provider a.state in
      if not (is_valid cred)
      then some (
        false,
        fail
            (codes "missing AWS credentials " ++ (em_dash ++ (codes " " ++ diagnostic_of provider)))
            b,
        record a { provider = provider; state = s },
      )
      else elim (fetch_loop w (cfg.max_attempts + 2) cfg cred object start b.region false 0 s) [
        | none ↦ none
        | some (outcome, region, s') ↦
            use_outcome outcome start target (record b { region = region })
              (record a { provider = provider; state = s' })
      ]

  -- A stream has its libcurl handle, since open checks that.
  unfoldable pub load_window : ℕ → Buffer → Around State → Option (Bool × Buffer × Around State)
  load_window target b a =
      let start = fetch_start a.cache.enabled object.read_ahead target in
      if a.cache.enabled
      then (let (hit, cache, files) = try_load io (now a.state) a.cache a.files uri start in
          let a' = record a { cache = cache; files = files } in
          elim hit [
            | some block ↦
                some (
                  true,
                  clear_error (install_window object.read_ahead start target true block b),
                  a',
                )
            | none ↦ fetch_window start target b a'
          ])
      else fetch_window start target b a
