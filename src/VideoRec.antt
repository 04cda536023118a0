-- ===== src/VideoRec.antt =====
-- lab2/video_rec_service/server_lib/server_lib.go: the recommender. State.antt has the server and
-- its counters, Connect.antt its connections, Batches.antt the split of a list of ids into calls,
-- Ranking.antt the ranked list, TopVideos.antt the handler GetTopVideos, Cache.antt the cache of
-- trending videos, Discovery.antt the search for the batch sizes that the services accept,
-- System.antt the recommender with the two services.
pub mod State
pub mod Connect
pub mod Batches
pub mod Ranking
pub mod Gather
pub mod TopVideos
pub mod Cache
pub mod Refresh
pub mod Discovery
pub mod System
pub mod Tests
mod SystemTests
pub mod RefreshTests
