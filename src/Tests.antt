-- ===== src/Tests.antt =====
-- Small deployments of the program for the tests: backends that keep their chunks in a map, or local
-- backends on directories that are maps, a
-- cipher that only adds a tag, and hashes that are quick to compute.
mod Platforms
mod Stores
mod Objects
mod Old
mod Pods
mod Placing
mod Backends
mod Files
mod Codecs
mod Ring
mod Api
mod Remote
mod Config
mod Drive
mod Racing
mod Listing
mod Etcd
mod Local
