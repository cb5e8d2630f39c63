-- ===== src/Token/Tests.antt =====
-- Two calls: the first fetches, the second finds the cache.
use archiviste_nocilia.Prelude.{◌+◌, false, refl, inl, none, [], codes}
use archiviste_nocilia.Token.{Provider, get_cached, enter_lock, finish_fetch, Step, Reaches}
use archiviste_nocilia.Token.Spaced.{IsCurrent, Reaches-IsCurrent}

abbrev start : Provider
start = record {
  now = 0;
  cached = none;
  waiting = 0;
  is_fetching = false;
  started = 0;
  fetches = [];
  returns = [];
}

abbrev waited : Provider
unfolding get_cached
waited = get_cached start

abbrev fetching : Provider
unfolding enter_lock
fetching = enter_lock 0 waited

abbrev fetched : Provider
unfolding finish_fetch
fetched = finish_fetch (codes "abc") 3600 fetching

abbrev later : Provider
later = record fetched { now = fetched.now + 3500 }

abbrev found : Provider
unfolding get_cached
found = get_cached later

path : Reaches start found
unfolding get_cached enter_lock finish_fetch
path =
    Reaches.steps
      (Reaches.steps
        (Reaches.steps
          (Reaches.steps (Reaches.steps (Reaches.stays start) (Step.calls start))
            (Step.enters 0 waited refl refl))
          (Step.fetches (codes "abc") 3600 fetching refl))
        (Step.passes 3500 fetched))
      (Step.calls later)

start-IsCurrent : IsCurrent start
start-IsCurrent = record { usable = tt; spaced = tt; last = refl; due = inl refl }

Reaches-IsCurrent_example : IsCurrent found
Reaches-IsCurrent_example = Reaches-IsCurrent path start-IsCurrent
