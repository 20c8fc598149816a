-- ===== src/Tests/Sources.antt =====
-- Witnesses: the credential chain and its cache.
use nanos3reader.Credentials.Sources.{env_or}
use nanos3reader.Prelude.{◌≡◌, refl, none, some, [], if◌then◌else◌}
use nanos3reader.Text.{codes, text_eq}
use nanos3reader.World.{World, is_valid}
use nanos3reader.Credentials.Provider.{Provider, new_provider, is_current, resolve, get}
use nanos3reader.Credentials.Provider.Cache.{
  first_found, chain, outcome, resolve-first_found, get-get,
}
use nanos3reader.Credentials.Sources.{env_or}
use nanos3reader.Tests.Fixtures.{world_with, answer}

-- No keys anywhere, and with keys in the environment.
abbrev no_keys : World
no_keys = world_with (λ req sent s. answer 404 [] [])

abbrev env_keys : World
env_keys = record no_keys {
  getenv = λ name.
      if text_eq name (codes "AWS_ACCESS_KEY_ID")
      then some (codes "AK")
      else if text_eq name (codes "AWS_SECRET_ACCESS_KEY")
      then some (codes "SK")
      else none;
}

resolve-first_found_example :
    outcome env_keys (resolve env_keys (codes "default") 0)
    ≡ first_found env_keys (chain env_keys (codes "default")) 0
resolve-first_found_example = resolve-first_found env_keys (codes "default") 0

abbrev fresh : Provider
fresh = new_provider (codes "default")

get-get_example :
    get env_keys (get env_keys fresh 0).1 5
    ≡ ((get env_keys fresh 0).0, (get env_keys fresh 0).1, 5)
unfolding get resolve env_or is_valid is_current text_eq
get-get_example = get-get env_keys fresh 0 5 refl refl
