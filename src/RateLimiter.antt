-- ===== src/RateLimiter.antt =====
-- rate-limiter: the limiters behind the interface of limiter.go. A call of `Allow` holds the lock from
-- its first read to its last write, so calls run one after the other. Times are nanoseconds since Go's
-- zero time.
mod Tests
pub mod Interface
pub mod FixedWindow
pub mod SlidingLog
pub mod Float
pub mod SlidingWindow
pub mod TokenBucket
pub mod LeakyBucket
