-- ===== src/Services.antt =====
-- lab2: the two services behind the recommender and what they share. Injection.antt is
-- lab2/failure_injection, Rpc.antt the errors of a call, Dedup.antt the ids of a request, User.antt
-- and Video.antt the handlers of lab2/user_service and lab2/video_service, Rank.antt lab2/ranker.
pub mod Rpc
pub mod Injection
pub mod Dedup
pub mod User
pub mod Video
pub mod Rank
mod Tests
