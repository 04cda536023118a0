-- ===== src/VideoRec/RefreshTests.antt =====
-- lab2: two rounds of the loop that refreshes the cache.
use cpsc.Common.{ℕ, ◌+◌, ◌≡◌, refl, inl, List, [], ◌∷◌, arith, map}
use mathlib.Core.List.Perm
use cpsc.Common.Outcome.{ok}
use cpsc.Services.Rpc.{value, failure, plain_error, literal}
use cpsc.VideoRec.State.{Server}
use cpsc.VideoRec.Batches.{retry}
use cpsc.VideoRec.Refresh.{Round, continually_refresh_cache}
use cpsc.VideoRec.Refresh.Ahead.{IsAnswered, AllAhead, continually_refresh_cache-AllAhead}
use cpsc.VideoRec.Refresh.Later.{AllLater, continually_refresh_cache-AllLater}
use cpsc.VideoRec.Tests.{server, video_info, cache_order}

-- A round at the time `now` that takes two seconds, with a cache that lasts 60 seconds.
abbrev pub round : ℕ → Round
round now = record {
  max_batch_size = 2;
  now = now;
  later = now + 2;
  source = record {
    trending = λ t. value (record { videos = 101 ∷ 102 ∷ 103 ∷ []; expiration_time_s = now + 60 });
    videos = λ i t ids. value (map video_info ids);
  };
  order = cache_order;
}

round-IsAnswered : (now : ℕ) → IsAnswered server.options video_info (round now)
unfolding retry
round-IsAnswered now = record {
  trending = record { videos = 101 ∷ 102 ∷ 103 ∷ []; expiration_time_s = now + 60 };
  some_size = omega arith;
  answer = refl;
  once = (Perm.swap 0 1 [], (omega arith, (omega arith, tt)));
  answers = λ i b le e. refl;
  lasts = omega arith;
  from_now = omega arith;
  quick = omega arith;
}

continually_refresh_cache-AllAhead_example :
    (us : List (Server × ℕ)) × (continually_refresh_cache (round 5 ∷ round 40 ∷ []) server ≡ ok us)
    × AllAhead (round 5 ∷ round 40 ∷ []) us
continually_refresh_cache-AllAhead_example =
    continually_refresh_cache-AllAhead video_info (round 5 ∷ round 40 ∷ []) server (inl refl) refl
      (round-IsAnswered 5, (round-IsAnswered 40, tt))

-- The service refuses the ids in the second round, with the retry.
abbrev lost : Round
lost = record (round 40) {
  source = record {
    trending = λ t. failure (plain_error (literal "no reply"));
    videos = λ i t ids. value (map video_info ids);
  };
}

continually_refresh_cache-AllLater_example :
    (us : List (Server × ℕ)) × (continually_refresh_cache (round 5 ∷ lost ∷ []) server ≡ ok us)
    × AllLater (round 5 ∷ lost ∷ []) server us
continually_refresh_cache-AllLater_example =
    continually_refresh_cache-AllLater (round 5 ∷ lost ∷ []) server (inl refl) refl
      (omega arith, (omega arith, tt))
