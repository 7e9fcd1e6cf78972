-- ===== src/Revision.antt =====
-- internal/revision/revision.go: the cache of revisions, its fills, and what a digest's labels say.
-- The registry, net/url, the GitHub API and the clock are parameters.
pub mod Cache
pub mod Wait
use mathlib.Core.List.{reverse}
use snowdeploy.Base.{
  ℕ, ◌+◌, Text, lit, ◌==◌, is_empty, cut, length, take, split, eqb, ltb, leb, Bool, true, false,
  not, ◌||◌, ◌&&◌, List, [], ◌∷◌, ◌++◌, Option, none, some, Error, Result, ok, err, if◌then◌else◌,
}
use snowdeploy.Dict.{Dict, lookup, put, delete}

pub record Revision : Type 0 where
  pub sha : Text
  pub url : Text
  pub subject : Text

-- `answer` is the revision, or none for a lookup that failed.
pub record CacheEntry : Type 0 where
  pub answer : Option Revision
  pub at : ℕ

-- `started` are the fills that were launched, the newest first.
pub record CachedSource : Type 0 where
  pub entries : Dict CacheEntry
  pub fills : Dict (Unit {0})
  pub started : List Text

-- 10 minutes, in nanoseconds.
abbrev pub failure_retry : ℕ
failure_retry = 600000000000

abbrev pub max_entries : ℕ
max_entries = 512

abbrev pub subject_limit : ℕ
subject_limit = 100

unfoldable pub new_cached : CachedSource
new_cached = record { entries = []; fills = []; started = [] }

-- The answer of the cache: decided, or to be waited for.
pub data Verdict : Type 0 where
  decided : Option Revision → Verdict
  waits : Verdict

abbrev pub fill_or_join : Text → Option (Unit {0}) → CachedSource → Verdict × CachedSource
fill_or_join key (some u) c = (waits, c)
fill_or_join key none c =
    (waits, record c { fills = put key tt c.fills; started = key ∷ c.started })

-- A failed entry answers for a while, a successful one for good.
abbrev pub remembered : Text → ℕ → Option Revision → ℕ → CachedSource → Verdict × CachedSource
remembered key now (some rev) at c = (decided (some rev), c)
remembered key now none at c =
    let filling = fill_or_join key (lookup key c.fills) c in
    if ltb now (at + failure_retry) then (decided none, c) else filling

abbrev pub decide : Text → ℕ → Option CacheEntry → CachedSource → Verdict × CachedSource
decide key now none c = fill_or_join key (lookup key c.fills) c
decide key now (some e) c = remembered key now e.answer e.at c

unfoldable pub cached_or_filling : Text → ℕ → CachedSource → Verdict × CachedSource
cached_or_filling key now c = decide key now (lookup key c.entries) c

unfoldable pub store : Text → Option Revision → ℕ → CachedSource → CachedSource
store key answer now c =
    let kept = if leb max_entries (length c.entries) then [] else c.entries in
    record c { entries = put key (record { answer = answer; at = now }) kept }

-- The end of a fill: its outcome is stored, and the fill is over.
unfoldable pub fill : Text → Option Revision → ℕ → CachedSource → CachedSource
unfolding store
fill key answer now c =
    let stored = store key answer now c in record stored { fills = delete key stored.fills }

-- strings.TrimSuffix
unfoldable pub trim_suffix : Text → Text → Text
trim_suffix [] p = []
trim_suffix (c ∷ s) p = if (c ∷ s) == p then [] else c ∷ trim_suffix s p

-- strings.Trim(s, "/")
abbrev drop_slashes : Text → Text
drop_slashes [] = []
drop_slashes (c ∷ s) = let rest = drop_slashes s in if eqb c b'/' then rest else c ∷ s

abbrev trim_slashes : Text → Text
trim_slashes s = reverse (drop_slashes (reverse (drop_slashes s)))

abbrev two_parts : List Text → Option (Text × Text)
two_parts (owner ∷ repo ∷ []) = if is_empty owner || is_empty repo then none else some (owner, repo)
two_parts _ = none

-- What url.Parse gives of a source: the host and the path.
unfoldable pub github_repository : Result (Text × Text) → Option (Text × Text)
github_repository (err e) = none
github_repository (ok (host, path)) =
    if host == lit "github.com" then two_parts (split b'/' (trim_slashes path)) else none

abbrev label : Text → Dict Text → Text
label key labels = text_or_none (lookup key labels)
  where
    text_or_none : Option Text → Text
    text_or_none none = []
    text_or_none (some t) = t

unfoldable pub source_of : Text → Text
unfolding trim_suffix
source_of source = trim_suffix (trim_suffix source (lit "/")) (lit ".git")

-- The first line of a commit message, without the carriage return, of at most 100 code points.
unfoldable pub subject_line : Text → Text
unfolding trim_suffix
subject_line message =
    let subject = trim_suffix (cut b'\n' message).0 (lit "\r") in
    if ltb subject_limit (length subject) then take subject_limit subject else subject

-- `commit_message` is what GitHub answers for an owner, a repository and a commit, if it does.
module _ (parse_url : Text → Result (Text × Text))
    (commit_message : Text → Text → Text → Option Text) where
  unfoldable pub commit_subject : Option Text → Text
  commit_subject none = []
  commit_subject (some message) = subject_line message

  abbrev pub subject_of : Option (Text × Text) → Text → Text
  subject_of none sha = []
  subject_of (some (owner, repo)) sha = commit_subject (commit_message owner repo sha)

  unfoldable pub described : Text → Text → Revision
  described sha source =
      if is_empty source then record { sha = sha; url = []; subject = [] } else record {
        sha = sha;
        url = source ++ lit "/commit/" ++ sha;
        subject = subject_of (github_repository (parse_url source)) sha;
      }

  unfoldable pub resolve : Result (Dict Text) → Option Revision
  resolve (err e) = none
  resolve (ok labels) =
      let sha = label (lit "org.opencontainers.image.revision") labels in
      if is_empty sha
      then none
      else some (described sha (source_of (label (lit "org.opencontainers.image.source") labels)))
