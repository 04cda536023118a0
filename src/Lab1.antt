-- ===== src/Lab1.antt =====
-- lab1/video_rec_service/server_lib/server_lib.go: the first version of the recommender of lab2. It
-- has no pool of connections: each request connects to the services, with deadlines on its way.
-- Its options, its statistics, its cache and its ranking are those of lab2.
pub mod Connect
pub mod VideoCalls
pub mod TopVideos
pub mod Discovery
pub mod Refresh
pub mod Tests
