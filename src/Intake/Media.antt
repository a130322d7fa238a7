-- ===== src/Intake/Media.antt =====
-- sassessment/intake/registration.py: the media type of a file.
use Prim.Native.Char.{Char, code}
use tecnosor_sas_migration_d.Common.{
  String, Bool, true, Option, none, some, List, [], ◌∷◌, ◌==◌, ◌||◌, ◌=?◌, get, if◌then◌else◌,
}
use tecnosor_sas_migration_d.Common.Texts.{lower}

-- The suffixes of one dot; ".tar.gz" and ".tgz" are tested before the table is read.
abbrev pub media_types : List (String × String)
media_types =
    (".sas", "sas-source")
    ∷ (".log", "log-text")
    ∷ (".txt", "text")
    ∷ (".md", "markdown")
    ∷ (".csv", "csv")
    ∷ (".tsv", "tsv")
    ∷ (".sql", "sql-plsql")
    ∷ (".json", "json")
    ∷ (".yaml", "yaml")
    ∷ (".yml", "yaml")
    ∷ (".docx", "office-word")
    ∷ (".doc", "office-word-legacy")
    ∷ (".xlsx", "office-excel")
    ∷ (".xls", "office-excel-legacy")
    ∷ (".pptx", "office-powerpoint")
    ∷ (".pdf", "pdf")
    ∷ (".zip", "archive-zip")
    ∷ (".tar", "archive-tar")
    ∷ (".gz", "archive-gzip")
    ∷ (".tgz", "archive-tar-gzip")
    ∷ (".tar.gz", "archive-tar-gzip")
    ∷ (".dtsx", "datastage-export")
    ∷ (".job", "datastage-job")
    ∷ (".zipfile", "unknown")
    ∷ []

-- `s.endswith(p)`
unfoldable pub ends_with : String → String → Bool
ends_with p String.[] = p == ""
ends_with p (String.◌∷◌ c s) =
    let rest = ends_with p s in if p == String.◌∷◌ c s then true else rest

abbrev from_dot : Option String → Char → String → Option String
from_dot (some t) c s = some t
from_dot none c s = if code c =? b'.' then some (String.◌∷◌ c s) else none

-- the text from the last dot on
unfoldable pub from_last_dot : String → Option String
from_last_dot String.[] = none
from_last_dot (String.◌∷◌ c s) = from_dot (from_last_dot s) c s

abbrev proper_suffix : Option String → String
proper_suffix none = ""
proper_suffix (some t) = if t == "." then "" else t

-- `path.suffix`: a dot in front of the name or at its end begins no suffix
unfoldable pub suffix : String → String
unfolding from_last_dot
suffix String.[] = ""
suffix (String.◌∷◌ c s) = proper_suffix (from_last_dot s)

abbrev or_unknown : Option String → String
or_unknown none = "unknown"
or_unknown (some t) = t

-- of the name of a file
unfoldable pub media_type_of : String → String
unfolding ends_with suffix lower
media_type_of name =
    if ends_with ".tar.gz" (lower name) || ends_with ".tgz" (lower name)
    then "archive-tar-gzip"
    else or_unknown (get (lower (suffix name)) media_types)
