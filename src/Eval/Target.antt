-- ===== src/Eval/Target.antt =====
-- eval/oidc.py: which workers are called with a token, and for which audience. `urlsplit` is not part of the model, only what it gives.
use archiviste_nocilia.Prelude.{
  Text, Bool, not, ◌&&◌, ◌||◌, Option, none, some, ◌++◌, codes, text_eq,
}

-- `SplitResult`
pub record Split : Type 0 where
  pub scheme : Text
  pub netloc : Text
  pub hostname : Option Text

abbrev pub or_nothing : Option Text → Text
or_nothing none = codes ""
or_nothing (some s) = s

-- `host in _LOOPBACK_HOSTS`
abbrev pub is_loopback : Text → Bool
is_loopback host =
    text_eq host (codes "localhost")
    || (text_eq host (codes "127.0.0.1") || text_eq host (codes "::1"))

unfoldable pub is_authenticated_target : Split → Bool
unfolding text_eq
is_authenticated_target parsed =
    text_eq parsed.scheme (codes "https") && not (is_loopback (or_nothing parsed.hostname))

-- `urlunsplit` with no path, for the scheme https
unfoldable pub derive_audience : Split → Text
derive_audience parsed = parsed.scheme ++ (codes "://" ++ parsed.netloc)
