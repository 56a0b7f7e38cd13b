-- ===== src/Database/Client.antt =====
-- The options of the database client: workers/src/lib/db.ts. The client is the `postgres` library.
use simtrader.Base.{ℕ, String, Bool, true, false, Option, none, some}

-- The bindings that the code reads: HYPERDRIVE's connection string and DATABASE_URL.
pub record Bindings : Type 0 where
  pub hyperdrive : Option String
  pub database_url : String

pub record ClientOptions : Type 0 where
  pub url : String
  pub requires_tls : Bool
  pub max : ℕ
  pub prepare : Bool
  -- `none` where the option is not given.
  pub fetch_types : Option Bool
  pub to_camel : Bool

-- `getDb`: Hyperdrive where it is bound, and the direct connection where it is not.
abbrev pub get_db : Bindings → ClientOptions
get_db b = elim b.hyperdrive [
  | some connection_string ↦ record {
    url = connection_string;
    requires_tls = false;
    max = 1;
    prepare = false;
    fetch_types = some false;
    to_camel = true;
  }
  | none ↦ record {
    url = b.database_url;
    requires_tls = true;
    max = 1;
    prepare = false;
    fetch_types = none;
    to_camel = true;
  }
]
