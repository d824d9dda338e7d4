-- ===== src/Knowledge/Open/Tests.antt =====
-- A knowledge base that is opened, and one whose provider is refused.
use rag_ai_system.Prelude.{ℕ, ◌≡◌, refl, true, none, [], pos, Result, ok, err}
use rag_ai_system.Text.{Text, codes, is_space, trim_left, trim_right, trim_space, text_eq}
use rag_ai_system.Text.Utf8.{bytes, is_blank_bytes}
use rag_ai_system.Storage.Dsn.{new_pool}
use rag_ai_system.Backoff.{Err, plain, default_policy}
use rag_ai_system.Embed.{validate, Provider}
use rag_ai_system.Storage.Spaces.{find_space, register_row, insert_space, ensure_space}
use rag_ai_system.Knowledge.Open.{OpenConfig, Site, Calls, dsn_of, open_knowledge}
use rag_ai_system.Knowledge.Open.Pools.{Opens, open_knowledge-Opens}

abbrev provider : Provider ℕ ℕ
provider = record {
  embed = λ texts kind s. (ok [], s);
  space = record { provider = codes "fake"; model = codes "m"; dim = pos 2 };
  max_batch = pos 8;
}

abbrev calls : Result Err (Provider ℕ ℕ) → Calls ℕ ℕ ℕ
calls built = record {
  dial = λ dsn. none;
  ping = none;
  migrate_up = λ c. (none, c);
  new_embedder = λ cfg. built;
  new_generator = λ cfg. err (plain (codes "no generator"));
  slug = λ s. s.provider;
  fault = λ st. none;
}

abbrev config : OpenConfig ℕ
config = record {
  dsn = codes "postgres://u:p@h/d";
  postgres = record {
    host = [];
    port = [];
    user = [];
    password = [];
    database = [];
    ssl_mode = [];
  };
  vault_path = [];
  chunk_size = pos 0;
  embedder = record {
    provider = codes "fake";
    model = [];
    dim = pos 2;
    api_key = [];
    base_url = [];
    ollama_url = [];
    rps = 0;
    burst = pos 1;
    retry = default_policy;
  };
  generator = none;
  skip_migrate = true;
}

abbrev site : Site
site = record { pools = 4; catalog = record { rows = []; tables = []; indexes = []; next_id = 1 } }

five_pools : (open_knowledge (calls (ok provider)) config site).1.pools ≡ 5
unfolding rag_ai_system.Text.Utf8.is_blank_bytes is_space open_knowledge dsn_of new_pool bytes
    ensure_space insert_space register_row find_space validate trim_space trim_left trim_right
    text_eq
five_pools = refl

four_pools : (open_knowledge (calls (err (plain (codes "no key")))) config site).1.pools ≡ 4
unfolding rag_ai_system.Text.Utf8.is_blank_bytes is_space open_knowledge dsn_of new_pool bytes
four_pools = refl

open_knowledge-Opens_example :
    Opens config site (open_knowledge (calls (err (plain (codes "no key")))) config site)
open_knowledge-Opens_example =
    open_knowledge-Opens (calls (err (plain (codes "no key")))) config site
